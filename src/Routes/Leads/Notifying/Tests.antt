-- ===== src/Routes/Leads/Notifying/Tests.antt =====
-- A new lead at the office of the fixtures, with a mail server that is down.
use alma_lead_management_ser.Common.{refl, inl, map, true, none, [], codes}
use alma_lead_management_ser.Engine.Memory.{memory_engine, memory_engine-IsEngine}
use alma_lead_management_ser.Engine.Fixtures.{office, bob}
use alma_lead_management_ser.Database.{Has}
use alma_lead_management_ser.Notifications.{
  ChannelSettings, smtp, mail_server, cached_channels, get_channels, confirmation, lead_alert,
}
use alma_lead_management_ser.Notifications.Delivery.{sent_by}
use alma_lead_management_ser.Routes.{NewLead}
use alma_lead_management_ser.Routes.Leads.Notifying.{notify_task, notify_task-reaches}

abbrev by_smtp : ChannelSettings
by_smtp = record {
  resend_api_key = [];
  smtp_host = codes "smtp.alma.com";
  smtp_port = 587;
  smtp_user = codes "u";
  smtp_password = codes "p";
  smtp_use_tls = true;
  email_from = codes "noreply@alma.com";
  attorney_email = codes "attorney@alma.com";
}

abbrev the_lead : NewLead
the_lead = record {
  prospect_email = codes "ann@x.org";
  first_name = codes "Ann";
  last_name = codes "Lee";
  resume_filename = codes "cv.pdf";
}

-- Every call raises, and still the prospect and Bob are tried.
notify_task-reaches_example :
    let tried =
      map sent_by (notify_task memory_engine by_smtp none (λ n c m. true) the_lead office) in
    let c = smtp (mail_server by_smtp) (codes "noreply@alma.com") in
    Has
      (
        c,
        lead_alert
            (codes "ann@x.org")
            (codes "Ann")
            (codes "Lee")
            (codes "cv.pdf")
            (codes "bob@alma.com"),
      )
      tried
    × Has (c, confirmation (codes "ann@x.org") (codes "Ann")) tried
unfolding cached_channels get_channels
notify_task-reaches_example =
    notify_task-reaches memory_engine memory_engine-IsEngine office by_smtp none (λ n c m. true)
      the_lead (smtp (mail_server by_smtp) (codes "noreply@alma.com")) 2 bob (inl refl) refl refl
      refl
