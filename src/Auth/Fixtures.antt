-- ===== src/Auth/Fixtures.antt =====
-- What the tests know of the fixtures' office.
use alma_lead_management_ser.Common.{arith, codes}
use alma_lead_management_ser.Engine.Memory.{memory_engine}
use alma_lead_management_ser.Engine.Fixtures.{office}
use alma_lead_management_ser.Auth.Lookup.{UniqueEmails, Unregistered}

pub office-UniqueEmails : UniqueEmails memory_engine office
office-UniqueEmails j k u v hu hv e = ground arith

pub office_lacks_dave : Unregistered memory_engine (codes "dave@alma.com") office
office_lacks_dave k u h e = ground arith
