-- ===== src/Notifications/Delivery.antt =====
-- Who is told of a new lead, whatever the channels do.
use alma_lead_management_ser.Common.{
  Bool-cases, inl, inr, ◌↔◌, ℕ, suc, ◌++◌, ◌≡◌, refl, ap, ap₂, ◌∙◌, Option, List, [], ◌∷◌, map,
  Text, truthy, arith, false,
}
use alma_lead_management_ser.Notifications.{
  Message, Channel, log, resend, smtp, mail_server, ChannelSettings, get_channels, cached_channels,
  Attempt, Faults, dispatch, confirmation, lead_alert, recipients, dispatch_all, notify_new_lead,
}

-- An attempt without its outcome.
abbrev pub sent_by : Attempt → Channel × Message
sent_by a = (a.channel, a.message)

-- A message by every channel, for every address.
abbrev pub every_channel : List Channel → Message → List (Channel × Message)
every_channel channels m = map (λ (c : Channel). (c, m)) channels

abbrev pub everyone : List Channel → (Text → Message) → List Text → List (Channel × Message)
everyone channels message [] = []
everyone channels message (to ∷ tos) =
    every_channel channels (message to) ++ everyone channels message tos

map-append : {A B : Type 0} (f : A → B) (xs ys : List A) → map f (xs ++ ys) ≡ map f xs ++ map f ys
map-append f [] ys = refl
map-append f (x ∷ xs) ys = ap (λ r. f x ∷ r) (map-append f xs ys)

module _ (raises : Faults) (channels : List Channel) where
  dispatch-tries :
      (n : ℕ) (cs : List Channel) (m : Message)
      → map sent_by (dispatch raises n cs m).0 ≡ every_channel cs m
  unfolding dispatch
  dispatch-tries n [] m = refl
  dispatch-tries n (c ∷ cs) m = ap (λ r. (c, m) ∷ r) (dispatch-tries (suc n) cs m)

  dispatch_all-tries :
      (n : ℕ) (message : Text → Message) (tos : List Text)
      → map sent_by (dispatch_all raises n channels message tos) ≡ everyone channels message tos
  dispatch_all-tries n message [] = refl
  dispatch_all-tries n message (to ∷ tos) =
      let (first, n') = dispatch raises n channels (message to) in
      map-append sent_by (dispatch raises n channels (message to)).0 _
      ∙ ap₂ (λ (a b : List (Channel × Message)). a ++ b) (dispatch-tries n channels (message to))
          (dispatch_all-tries (dispatch raises n channels (message to)).1 message tos)

-- Whatever calls of `send` raise, every channel is tried once with the confirmation to the prospect
-- and then once with the message to each attorney, in this order; if no attorney is given, the
-- address of the settings takes their place.
pub notify_new_lead-tries :
    (settings : ChannelSettings) (cache : Option (List Channel)) (raises : Faults)
    (prospect_email first_name last_name resume_filename : Text) (emails : List Text)
    → let channels = cached_channels settings cache in
      map sent_by (
        notify_new_lead settings cache raises prospect_email first_name last_name resume_filename
          emails)
      ≡ every_channel channels (confirmation prospect_email first_name)
        ++ everyone channels
            (lead_alert prospect_email first_name last_name resume_filename)
            (recipients settings emails)
unfolding notify_new_lead
notify_new_lead-tries settings cache raises prospect_email first_name last_name resume_filename
      emails =
    let channels = cached_channels settings cache in
    let hello = confirmation prospect_email first_name in
    map-append sent_by (dispatch raises 0 channels hello).0 _
    ∙ ap₂ (λ (a b : List (Channel × Message)). a ++ b)
        (dispatch-tries raises channels 0 channels hello)
        (dispatch_all-tries raises channels (dispatch raises 0 channels hello).1 _ _)

-- The settings choose exactly one channel: it is the log only if neither Resend nor SMTP is set.
pub get_channels_one :
    (settings : ChannelSettings)
    → (c : Channel) × (get_channels settings ≡ c ∷ [])
      × ((c ≡ log)
          ↔ ((truthy settings.resend_api_key ≡ false) × (truthy settings.smtp_host ≡ false)))
unfolding get_channels
get_channels_one settings = elim (Bool-cases (truthy settings.resend_api_key)) [
  | inl r ↦ (resend settings.resend_api_key settings.email_from, ground arith, ground arith)
  | inr r ↦ elim (Bool-cases (truthy settings.smtp_host)) [
    | inl h ↦ (smtp (mail_server settings) settings.email_from, ground arith, ground arith)
    | inr h ↦ (log, ground arith, ground arith)
  ]
]
