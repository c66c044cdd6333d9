-- ===== src/Notifications.antt =====
-- app/services/notification_service.py and app/services/channels: who is told of a new lead, and by
-- which channel. What a mail server or the Resend API does with a message is an argument.
pub mod Delivery
pub mod Transports
mod Tests
use alma_lead_management_ser.Common.{
  ℕ, suc, ◌++◌, Bool, true, false, not, Option, none, some, List, [], ◌∷◌, if◌then◌else◌, Text,
  truthy, codes,
}

pub record Message : Type 0 where
  pub to : Text
  pub subject : Text
  pub body : Text

pub record MailServer : Type 0 where
  pub host : Text
  pub port : ℕ
  pub username : Text
  pub password : Text
  pub use_tls : Bool

pub data Channel : Type 0 where
  log : Channel
  resend : (api_key from_address : Text) → Channel
  smtp : MailServer → (from_address : Text) → Channel

pub record ChannelSettings : Type 0 where
  pub resend_api_key : Text
  pub smtp_host : Text
  pub smtp_port : ℕ
  pub smtp_user : Text
  pub smtp_password : Text
  pub smtp_use_tls : Bool
  pub email_from : Text
  pub attorney_email : Text

-- `channels.append(LogChannel())` if there is none.
abbrev or_log : List Channel → List Channel
or_log [] = log ∷ []
or_log (c ∷ cs) = c ∷ cs

abbrev pub mail_server : ChannelSettings → MailServer
mail_server settings = record {
  host = settings.smtp_host;
  port = settings.smtp_port;
  username = settings.smtp_user;
  password = settings.smtp_password;
  use_tls = settings.smtp_use_tls;
}

abbrev email_channels : ChannelSettings → List Channel
email_channels settings =
    if truthy settings.resend_api_key
    then resend settings.resend_api_key settings.email_from ∷ []
    else if truthy settings.smtp_host
    then smtp (mail_server settings) settings.email_from ∷ []
    else []

unfoldable pub get_channels : ChannelSettings → List Channel
get_channels settings = or_log (email_channels settings)

-- `_get_channels`: the module's `_channels`, and its value afterwards.
unfoldable pub cached_channels : ChannelSettings → Option (List Channel) → List Channel
cached_channels settings none = get_channels settings
cached_channels settings (some channels) = channels

-- One call of `send`; one that raised is logged.
pub record Attempt : Type 0 where
  pub channel : Channel
  pub message : Message
  pub raised : Bool

-- Whether the n-th call of `send` raises.
abbrev pub Faults : Type 0
Faults = ℕ → Channel → Message → Bool

-- `_dispatch`, after `n` calls: an exception of a channel ends nothing.
unfoldable pub dispatch : Faults → ℕ → List Channel → Message → List Attempt × ℕ
dispatch raises n [] message = ([], n)
dispatch raises n (channel ∷ channels) message =
    let (attempts, n') = dispatch raises (suc n) channels message in
    (
      record { channel = channel; message = message; raised = raises n channel message } ∷ attempts,
      n',
    )

-- The message to the prospect, without its greeting's layout.
abbrev pub confirmation : (prospect_email first_name : Text) → Message
confirmation prospect_email first_name = record {
  to = prospect_email;
  subject = codes "We received your application";
  body =
      codes "Hi "
      ++ (first_name
          ++ codes
              ",\n\nThank you for submitting your information. Our team will review it and reach out shortly.\n\nBest,\nAlma");
}

abbrev pub lead_alert : (prospect_email first_name last_name resume_filename to : Text) → Message
lead_alert prospect_email first_name last_name resume_filename to = record {
  to = to;
  subject = codes "New lead submitted: " ++ (first_name ++ (codes " " ++ last_name));
  body =
      codes "A new lead has been submitted.\n\n  Name:   "
      ++ (first_name
          ++ (codes " "
              ++ (last_name
                  ++ (codes "\n  Email:  "
                      ++ (prospect_email
                          ++ (codes "\n  Resume: "
                              ++ (resume_filename
                                  ++ codes "\n\nPlease review it in the dashboard.")))))));
}

-- `attorney_emails if attorney_emails else [settings.attorney_email]`
abbrev pub recipients : ChannelSettings → List Text → List Text
recipients settings [] = settings.attorney_email ∷ []
recipients settings (e ∷ es) = e ∷ es

-- `for email in recipients: await _dispatch(...)`
abbrev pub dispatch_all : Faults → ℕ → List Channel → (Text → Message) → List Text → List Attempt
dispatch_all raises n channels message [] = []
dispatch_all raises n channels message (to ∷ tos) =
    let (attempts, n') = dispatch raises n channels (message to) in
    attempts ++ dispatch_all raises n' channels message tos

unfoldable pub notify_new_lead :
    ChannelSettings
    → Option (List Channel)
    → Faults
    → (prospect_email first_name last_name resume_filename : Text) → (attorney_emails : List Text)
    → List Attempt
notify_new_lead settings cache raises prospect_email first_name last_name resume_filename emails =
    let channels = cached_channels settings cache in
    let (first, n) = dispatch raises 0 channels (confirmation prospect_email first_name) in
    first
    ++ dispatch_all raises n channels
        (lead_alert prospect_email first_name last_name resume_filename)
        (recipients settings emails)
