-- ===== src/Routes/Leads/Notifying.antt =====
-- The background task `_notify_new_lead`: everybody who should hear of a new lead is told.
mod Tests
use alma_lead_management_ser.Common.{
  ℕ, ◌≡◌, sym, subst, inl, inr, true, Option, some, List, [], ◌∷◌, ◌++◌, map, Text,
}
use alma_lead_management_ser.Models.{User, attorney}
use alma_lead_management_ser.Database.{Has}
use alma_lead_management_ser.Database.Members.{Has-map}
use alma_lead_management_ser.Engine.{Engine, IsEngine, Db}
use alma_lead_management_ser.Auth.{list_active_attorney_emails}
use alma_lead_management_ser.Auth.Accounts.{list_active_attorney_emails_complete}
use alma_lead_management_ser.Notifications.{
  Message, Channel, ChannelSettings, Faults, Attempt, cached_channels, confirmation, lead_alert,
  recipients, notify_new_lead,
}
use alma_lead_management_ser.Notifications.Delivery.{
  sent_by, every_channel, everyone, notify_new_lead-tries,
}
use alma_lead_management_ser.Routes.{NewLead}

-- The emails are read by a session that sees all rows; then the notifications go out.
unfoldable pub notify_task :
    (E : Engine) → ChannelSettings → Option (List Channel) → Faults → NewLead → Db E → List Attempt
notify_task E settings cache raises n db =
    notify_new_lead settings cache raises n.prospect_email n.first_name n.last_name
      n.resume_filename (list_active_attorney_emails E db)

Has-append_left : {A : Type 0} (x : A) (xs ys : List A) → Has x xs → Has x (xs ++ ys)
Has-append_left x [] ys m = absurd m
Has-append_left x (y ∷ xs) ys (inl e) = inl e
Has-append_left x (y ∷ xs) ys (inr m) = inr (Has-append_left x xs ys m)

Has-append_right : {A : Type 0} (x : A) (xs ys : List A) → Has x ys → Has x (xs ++ ys)
Has-append_right x [] ys m = m
Has-append_right x (y ∷ xs) ys m = inr (Has-append_right x xs ys m)

Has-everyone :
    (c : Channel) (channels : List Channel) (message : Text → Message) (to : Text) (tos : List Text)
    → Has c channels
    → Has to tos
    → Has (c, message to) (everyone channels message tos)
Has-everyone c channels message to [] m k = absurd k
Has-everyone c channels message to (t ∷ tos) m (inl e) =
    Has-append_left (c, message to) (every_channel channels (message t)) _
      (subst (λ (s : Text). Has (c, message to) (every_channel channels (message s))) e
        (Has-map (λ (d : Channel). (d, message to)) c channels m))
Has-everyone c channels message to (t ∷ tos) m (inr k) =
    Has-append_right (c, message to) (every_channel channels (message t)) _
      (Has-everyone c channels message to tos m k)

recipients-keep :
    (settings : ChannelSettings) (to : Text) (emails : List Text)
    → Has to emails
    → Has to (recipients settings emails)
recipients-keep settings to [] m = absurd m
recipients-keep settings to (e ∷ es) m = m

module _ (E : Engine) (laws : IsEngine E) (db : Db E) where
  -- Every channel is tried for every active attorney, with the message about the lead, and for the
  -- prospect, with the confirmation, whatever other calls of `send` raise.
  pub notify_task-reaches :
      (settings : ChannelSettings) (cache : Option (List Channel)) (raises : Faults) (n : NewLead)
      (c : Channel) (k : ℕ) (u : User)
      → Has c (cached_channels settings cache)
      → E.users.get k db.users ≡ some u
      → u.role ≡ attorney
      → u.is_active ≡ true
      → let tried = map sent_by (notify_task E settings cache raises n db) in
        Has
          (c, lead_alert n.prospect_email n.first_name n.last_name n.resume_filename u.email)
          tried
        × Has (c, confirmation n.prospect_email n.first_name) tried
  unfolding notify_task
  notify_task-reaches settings cache raises n c k u m h role on =
      let channels = cached_channels settings cache in
      let emails = list_active_attorney_emails E db in
      let alert = lead_alert n.prospect_email n.first_name n.last_name n.resume_filename in
      let hello = confirmation n.prospect_email n.first_name in
      let all = everyone channels alert (recipients settings emails) in
      let tries = sym (
        notify_new_lead-tries settings cache raises n.prospect_email n.first_name n.last_name
          n.resume_filename emails) in
      let listed =
        recipients-keep settings u.email emails
          (list_active_attorney_emails_complete E laws db k u h role on) in
      (
        subst (Has (c, alert u.email)) tries (
            Has-append_right (c, alert u.email) (every_channel channels hello) all
              (Has-everyone c channels alert u.email (recipients settings emails) m listed)),
        subst (Has (c, hello)) tries (
            Has-append_left (c, hello) (every_channel channels hello) all
              (Has-map (λ (d : Channel). (d, hello)) c channels m)),
      )
