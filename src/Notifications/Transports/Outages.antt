-- ===== src/Notifications/Transports/Outages.antt =====
-- A lead whose name has a line break, told of by SMTP.
use alma_lead_management_ser.Common.{
  ℕ, suc, ◌++◌, ◌≡◌, ◌⊎◌, inl, inr, refl, Bool, true, false, ◌||◌, none, List, [], ◌∷◌, All, Text,
  truthy, Bool-cases, arith,
}
use alma_lead_management_ser.Notifications.{
  Message, MailServer, smtp, mail_server, ChannelSettings, get_channels, cached_channels, dispatch,
  dispatch_all, confirmation, lead_alert, recipients, notify_new_lead,
}
use alma_lead_management_ser.Notifications.Transports.{
  is_line_break, goes_on, many_lines, send_sync, Network, send,
}

abbrev pub has_line_break : Text → Bool
has_line_break [] = false
has_line_break (c ∷ cs) = is_line_break c || has_line_break cs

goes_on-space : (c : ℕ) (t rest : Text) → goes_on c (t ++ (b' ' ∷ rest)) ≡ true
goes_on-space c [] rest = ground arith
goes_on-space c (d ∷ []) rest = ground arith
goes_on-space c (d ∷ e ∷ ds) rest = ground arith

-- A line break before a space leaves two lines.
many_lines-space :
    (t rest : Text) → has_line_break t ≡ true → many_lines (t ++ (b' ' ∷ rest)) ≡ true
many_lines-space [] rest h = ground arith
many_lines-space (c ∷ cs) rest h = elim (Bool-cases (is_line_break c)) [
  | inl e ↦ ground (arith, goes_on-space c cs rest)
  | inr e ↦ ground (arith, many_lines-space cs rest)
]

module _ (net : Network) (server : MailServer) (from_address : Text)
    (prospect_email first_name last_name resume_filename : Text)
    (broken : has_line_break first_name ≡ true) where
  abbrev alert : Text → Message
  alert = lead_alert prospect_email first_name last_name resume_filename

  send-alert : (n : ℕ) (to : Text) → send net n (smtp server from_address) (alert to) ≡ true
  unfolding send send_sync
  send-alert n to =
      let two_lines = many_lines-space first_name last_name broken in
      elim (Bool-cases (many_lines from_address || many_lines to)) [
        | inl e ↦ ground arith
        | inr e ↦ ground arith
      ]

  dispatch_all_raised :
      (n : ℕ) (tos : List Text)
      → All
          (λ a. (a.message ≡ confirmation prospect_email first_name) ⊎ (a.raised ≡ true))
          (dispatch_all (send net) n (smtp server from_address ∷ []) alert tos)
  unfolding dispatch
  dispatch_all_raised n [] = tt
  dispatch_all_raised n (to ∷ tos) = (inr (send-alert n to), dispatch_all_raised (suc n) tos)

-- Where the settings choose SMTP and the channels are made now, a line break in the first name of
-- a lead makes every message to an attorney raise, whatever the mail server does: only the
-- confirmation to the prospect may go out.
pub notify_new_lead-unannounced :
    (settings : ChannelSettings) (net : Network)
    (prospect_email first_name last_name resume_filename : Text) (emails : List Text)
    → truthy settings.resend_api_key ≡ false
    → truthy settings.smtp_host ≡ true
    → has_line_break first_name ≡ true
    → All
        (λ a. (a.message ≡ confirmation prospect_email first_name) ⊎ (a.raised ≡ true))
        (notify_new_lead settings none
          (send net)
          prospect_email
          first_name
          last_name
          resume_filename
          emails)
unfolding notify_new_lead cached_channels get_channels dispatch
notify_new_lead-unannounced settings net prospect_email first_name last_name resume_filename emails
      h k broken =
    rw (h, k)
      (
        inl refl,
        dispatch_all_raised net (mail_server settings) settings.email_from prospect_email first_name
            last_name resume_filename broken 1 (recipients settings emails),
      )
