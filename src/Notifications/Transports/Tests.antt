-- ===== src/Notifications/Transports/Tests.antt =====
-- A mail server that wants no TLS, and a name with a line break.
use alma_lead_management_ser.Common.{
  ◌≡◌, ◌⊎◌, ◌++◌, inl, inr, refl, Bool, true, false, none, [], ◌∷◌, All, codes, Text,
}
use alma_lead_management_ser.Notifications.{
  Message, MailServer, ChannelSettings, Attempt, confirmation, notify_new_lead,
}
use alma_lead_management_ser.Notifications.Transports.{
  SmtpCall, connect, starttls, quit, send_sync, response, Network, send,
}
use alma_lead_management_ser.Notifications.Transports.Smtp.{StartsTls, send_sync-starttls_first}
use alma_lead_management_ser.Notifications.Transports.Outages.{notify_new_lead-unannounced}

abbrev server : MailServer
server = record {
  host = codes "smtp.alma.com";
  port = 587;
  username = codes "u";
  password = codes "p";
  use_tls = true;
}

abbrev hello : Message
hello = record { to = codes "j@x.org"; subject = codes "Hi"; body = codes "Hi Jane" }

abbrev sender : Text
sender = codes "noreply@alma.com"

abbrev accepts_all : SmtpCall → Bool
accepts_all c = false

abbrev no_tls : SmtpCall → Bool
no_tls starttls = true
no_tls c = false

-- Without TLS the login is not tried.
send_sync-no_tls :
    send_sync no_tls server sender hello
    ≡ (connect (codes "smtp.alma.com") 587 ∷ starttls ∷ quit ∷ [], true)
unfolding send_sync
send_sync-no_tls = refl

send_sync-starttls_first_example :
    StartsTls accepts_all server (send_sync accepts_all server sender hello).0
unfolding send_sync
send_sync-starttls_first_example =
    send_sync-starttls_first accepts_all server sender hello refl (inr (inr (inl refl)))

abbrev by_smtp : ChannelSettings
by_smtp = record {
  resend_api_key = [];
  smtp_host = codes "smtp.alma.com";
  smtp_port = 587;
  smtp_user = codes "u";
  smtp_password = codes "p";
  smtp_use_tls = true;
  email_from = sender;
  attorney_email = codes "attorney@alma.com";
}

-- Every server accepts everything, and the API answers 200 with an object.
abbrev up : Network
up = record {
  refuses = λ n c. false;
  reply = λ n r. response 200 true;
  is_success = λ status. true;
}

abbrev two_lines : Text
two_lines = codes "Jane" ++ (10 ∷ codes "Mary")

notify_new_lead-unannounced_example :
    All
      (λ (a : Attempt). (a.message ≡ confirmation (codes "j@x.org") two_lines) ⊎ (a.raised ≡ true))
      (notify_new_lead by_smtp none
        (send up)
        (codes "j@x.org")
        two_lines
        (codes "Doe")
        (codes "cv.pdf")
        (codes "bob@alma.com" ∷ []))
notify_new_lead-unannounced_example =
    notify_new_lead-unannounced by_smtp up (codes "j@x.org") two_lines (codes "Doe")
      (codes "cv.pdf") (codes "bob@alma.com" ∷ []) refl refl refl
