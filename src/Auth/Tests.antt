-- ===== src/Auth/Tests.antt =====
-- The account service on the office of the fixtures.
use alma_lead_management_ser.Common.{◌≡◌, refl, [], ◌∷◌, codes}
use alma_lead_management_ser.Results.{ok, err, integrity_error}
use alma_lead_management_ser.Models.{attorney, new_user}
use alma_lead_management_ser.Engine.Memory.{memory_engine, memory_engine-IsEngine}
use alma_lead_management_ser.Engine.Fixtures.{office, bob}
use alma_lead_management_ser.Security.{hash_password}
use alma_lead_management_ser.Security.Memory.{memory_crypto}
use alma_lead_management_ser.Auth.{register_user, email_registered, list_active_attorney_emails}
use alma_lead_management_ser.Auth.Fixtures.{office-UniqueEmails, office_lacks_dave}
use alma_lead_management_ser.Auth.Register.{register_user-refuses}
use alma_lead_management_ser.Auth.Racing.{register_user_late, register_user-race}

register_user-refuses_example :
    register_user memory_engine memory_crypto 4 900
      (codes "s:")
      (codes "bob@alma.com")
      (codes "pw")
      attorney
      office
    ≡ (err email_registered, office)
register_user-refuses_example =
    register_user-refuses memory_engine memory_engine-IsEngine memory_crypto 4 900 (codes "s:")
      (codes "bob@alma.com") (codes "pw") attorney office office-UniqueEmails 2 bob refl refl

list_active_attorney_emails-office :
    list_active_attorney_emails memory_engine office ≡ codes "bob@alma.com" ∷ []
unfolding list_active_attorney_emails
list_active_attorney_emails-office = refl

register_user-race_example :
    let a =
      register_user_late memory_engine memory_crypto 4 900
        (codes "s:")
        (codes "dave@alma.com")
        (codes "daves-word")
        attorney
        office
        office in
    let b =
      register_user_late memory_engine memory_crypto 5 901
        (codes "t:")
        (codes "dave@alma.com")
        (codes "another-word")
        attorney
        office
        a.1 in
    (a.0
      ≡ ok (
          new_user 4 900
            (codes "dave@alma.com")
            (hash_password memory_crypto (codes "s:") (codes "daves-word"))
            attorney))
    × (b ≡ (err integrity_error, a.1))
    × (register_user memory_engine memory_crypto 5 901
          (codes "t:")
          (codes "dave@alma.com")
          (codes "another-word")
          attorney
          a.1
        ≡ (err email_registered, a.1))
register_user-race_example =
    register_user-race memory_engine memory_engine-IsEngine memory_crypto (codes "dave@alma.com") 4
      5 900 901 (codes "s:") (codes "t:") (codes "daves-word") (codes "another-word") attorney
      attorney office office-UniqueEmails office_lacks_dave refl
