-- ===== src/Notifications/Transports.antt =====
-- app/services/channels: what each channel sends when its `send` is called. The answers of a mail
-- server and of the Resend API are arguments, and so is which answer httpx takes for a success.
pub mod Smtp
pub mod Outages
mod Tests
use alma_lead_management_ser.Common.{
  ℕ, ◌++◌, Bool, true, false, not, ◌&&◌, ◌||◌, ◌==◌, Option, none, some, List, [], ◌∷◌,
  if◌then◌else◌, Text, truthy, codes,
}
use alma_lead_management_ser.Notifications.{Message, MailServer, Channel, log, resend, smtp, Faults}

-- The characters at which `str.splitlines` breaks a text.
abbrev pub is_line_break : ℕ → Bool
is_line_break c =
    c == 10
    || c == 11
    || c == 12
    || c == 13
    || c == 28
    || c == 29
    || c == 30
    || c == 0x85
    || c == 0x2028
    || c == 0x2029

-- Something follows the line that the character `c` ends.
abbrev pub goes_on : (c : ℕ) → Text → Bool
goes_on c [] = false
goes_on c (d ∷ ds) = if c == 13 && d == 10 then truthy ds else true

-- `len(value.splitlines()) > 1`: then setting a header raises ValueError.
abbrev pub many_lines : Text → Bool
many_lines [] = false
many_lines (c ∷ cs) = if is_line_break c then goes_on c cs else many_lines cs

-- `EmailMessage`
pub record EmailMessage : Type 0 where
  pub from : Text
  pub to : Text
  pub subject : Text
  pub content : Text

abbrev pub email_message : (from_address : Text) → Message → Option EmailMessage
email_message from_address message =
    if many_lines from_address || many_lines message.to || many_lines message.subject
    then none
    else some (record {
      from = from_address;
      to = message.to;
      subject = message.subject;
      content = message.body;
    })

-- The calls of smtplib. `quit` ends the `with` block and raises nothing.
pub data SmtpCall : Type 0 where
  connect : (host : Text) → (port : ℕ) → SmtpCall
  starttls : SmtpCall
  login : (username password : Text) → SmtpCall
  send_message : EmailMessage → SmtpCall
  quit : SmtpCall

-- The calls that were made, and whether the last one raised.
abbrev pub in_order : (refuses : SmtpCall → Bool) → List SmtpCall → List SmtpCall × Bool
in_order refuses [] = ([], false)
in_order refuses (c ∷ cs) =
    let rest = in_order refuses cs in if refuses c then (c ∷ [], true) else (c ∷ rest.0, rest.1)

-- The body of the `with` block.
abbrev pub block : MailServer → EmailMessage → List SmtpCall
block server msg =
    (if server.use_tls then starttls ∷ [] else [])
    ++ (login server.username server.password ∷ send_message msg ∷ [])

abbrev pub deliver :
    (refuses : SmtpCall → Bool) → MailServer → Option EmailMessage → List SmtpCall × Bool
deliver refuses server none = ([], true)
deliver refuses server (some msg) =
    let hello = connect server.host server.port in
    let body = in_order refuses (block server msg) in
    if refuses hello then (hello ∷ [], true) else (hello ∷ body.0 ++ (quit ∷ []), body.1)

-- `_send_sync`: the calls, and whether it raises.
unfoldable pub send_sync :
    (refuses : SmtpCall → Bool)
    → MailServer
    → (from_address : Text) → Message
    → List SmtpCall × Bool
send_sync refuses server from_address message =
    deliver refuses server (email_message from_address message)

pub record ResendRequest : Type 0 where
  pub url : Text
  pub authorization : Text
  pub from : Text
  pub to : Text
  pub subject : Text
  pub text : Text

unfoldable pub resend_request : (api_key from_address : Text) → Message → ResendRequest
resend_request api_key from_address message = record {
  url = codes "https://api.resend.com/emails";
  authorization = codes "Bearer " ++ api_key;
  from = from_address;
  to = message.to;
  subject = message.subject;
  text = message.body;
}

-- What `client.post` gives: an exception, or a response whose body is an object of JSON or not.
pub data Reply : Type 0 where
  exception : Reply
  response : (status : ℕ) → (is_object : Bool) → Reply

-- `resp.raise_for_status()`, and `resp.json().get("id")` for the log line.
abbrev pub reply_raises : (is_success : ℕ → Bool) → Reply → Bool
reply_raises is_success exception = true
reply_raises is_success (response status is_object) = not (is_success status) || not is_object

-- What the network does with the n-th call of `send`.
pub record Network : Type 0 where
  pub refuses : ℕ → SmtpCall → Bool
  pub reply : ℕ → ResendRequest → Reply
  pub is_success : ℕ → Bool

-- `ResendEmailChannel.send` and `SmtpEmailChannel.send`: whether they raise.
abbrev resend_send : Network → ℕ → (api_key from_address : Text) → Message → Bool
resend_send net n api_key from_address message =
    reply_raises net.is_success (net.reply n (resend_request api_key from_address message))

abbrev smtp_send : Network → ℕ → MailServer → (from_address : Text) → Message → Bool
smtp_send net n server from_address message =
    (send_sync (net.refuses n) server from_address message).1

-- `channel.send(message)`: whether it raises. The log channel only writes a line.
unfoldable pub send : Network → Faults
send net n log message = false
send net n (resend api_key from_address) message = resend_send net n api_key from_address message
send net n (smtp server from_address) message = smtp_send net n server from_address message
