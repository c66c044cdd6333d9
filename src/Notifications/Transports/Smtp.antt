-- ===== src/Notifications/Transports/Smtp.antt =====
-- The SMTP channel: when a message is sent, and that TLS comes before the password.
use alma_lead_management_ser.Common.{
  ◌++◌, ◌≡◌, ◌↔◌, inl, inr, refl, subst, sym, ap, ◌∙◌, Bool, true, false, some, List, [], ◌∷◌, All,
  Text, Bool-cases, Option-cases, arith,
}
use alma_lead_management_ser.Database.{Has}
use alma_lead_management_ser.Notifications.{Message, MailServer}
use alma_lead_management_ser.Notifications.Transports.{
  EmailMessage, email_message, SmtpCall, connect, starttls, login, send_message, quit, in_order,
  block, deliver, send_sync,
}

module _ (refuses : SmtpCall → Bool) where
  in_order_iff :
      (cs : List SmtpCall) → ((in_order refuses cs).1 ≡ false) ↔ All (λ c. refuses c ≡ false) cs
  in_order_iff [] = ground arith
  in_order_iff (c ∷ cs) = ground (arith, in_order_iff cs)

  in_order_complete :
      (cs : List SmtpCall) → All (λ c. refuses c ≡ false) cs → (in_order refuses cs).0 ≡ cs
  in_order_complete [] h = refl
  in_order_complete (c ∷ cs) (h, hs) = ground (arith, in_order_complete cs hs)

  -- The server accepts the connection and each call of the block.
  abbrev pub Accepted : MailServer → EmailMessage → Type 0
  Accepted server msg =
      (refuses (connect server.host server.port) ≡ false)
      × All (λ c. refuses c ≡ false) (block server msg)

  deliver_iff :
      (server : MailServer) (msg : EmailMessage)
      → ((deliver refuses server (some msg)).1 ≡ false) ↔ Accepted server msg
  deliver_iff server msg = ground (arith, in_order_iff (block server msg))

  deliver_calls :
      (server : MailServer) (msg : EmailMessage)
      → Accepted server msg
      → (deliver refuses server (some msg)).0
        ≡ connect server.host server.port ∷ block server msg ++ (quit ∷ [])
  deliver_calls server msg (h, hs) = ground (arith, in_order_complete (block server msg) hs)

  -- `_send_sync` returns without an exception if and only if the addresses and the subject are single
  -- lines and the server accepts every call; then the calls are the connection, STARTTLS if it is
  -- wanted, the login, the message and the end, in this order.
  pub send_sync_iff :
      (server : MailServer) (from_address : Text) (message : Message)
      → ((send_sync refuses server from_address message).1 ≡ false) ↔ (
          (msg : EmailMessage) × (email_message from_address message ≡ some msg)
          × Accepted server msg
          × ((send_sync refuses server from_address message).0
              ≡ connect server.host server.port ∷ block server msg ++ (quit ∷ [])))
  unfolding send_sync
  send_sync_iff server from_address message =
      elim (Option-cases (email_message from_address message)) [
        | inl e ↦ ground arith
        | inr (msg, e) ↦ (
          (λ h.
              let accepted =
                (deliver_iff server msg).0
                  (subst (λ o. (deliver refuses server o).1 ≡ false) e h) in
              (
                msg,
                e,
                accepted,
                ap (λ o. (deliver refuses server o).0) e ∙ deliver_calls server msg accepted,
              )),
          (λ (m, q, accepted, calls).
              subst (λ o. (deliver refuses server o).1 ≡ false) (sym q)
                ((deliver_iff server m).1 accepted)),
        )
      ]

  abbrev pub StartsTls : MailServer → List SmtpCall → Type 0
  StartsTls server calls =
      (refuses starttls ≡ false)
      × ((rest : List SmtpCall) × (calls
            ≡ connect server.host server.port
              ∷ starttls
              ∷ login server.username server.password
              ∷ rest))

  deliver_tls :
      (server : MailServer) (msg : EmailMessage)
      → server.use_tls ≡ true
      → Has (login server.username server.password) (deliver refuses server (some msg)).0
      → StartsTls server (deliver refuses server (some msg)).0
  deliver_tls server msg tls h = elim (Bool-cases (refuses (connect server.host server.port))) [
    | inl c ↦ absurd (ground arith)
    | inr c ↦ elim (Bool-cases (refuses starttls)) [
      | inl t ↦ absurd (ground arith)
      | inr t ↦ elim (Bool-cases (refuses (login server.username server.password))) [
        | inl l ↦ (t, (quit ∷ [], ground arith))
        | inr l ↦ (t, ((in_order refuses (send_message msg ∷ [])).0 ++ (quit ∷ []), ground arith))
      ]
    ]
  ]

  -- The password goes over the connection only after the server has accepted STARTTLS, if the settings
  -- ask for TLS, whatever the server refuses.
  pub send_sync-starttls_first :
      (server : MailServer) (from_address : Text) (message : Message)
      → server.use_tls ≡ true
      → Has
          (login server.username server.password)
          (send_sync refuses server from_address message).0
      → StartsTls server (send_sync refuses server from_address message).0
  unfolding send_sync
  send_sync-starttls_first server from_address message tls h =
      elim (Option-cases (email_message from_address message)) [
        | inl e ↦ absurd (ground arith)
        | inr (msg, e) ↦
            subst (λ o. StartsTls server (deliver refuses server o).0) (sym e)
              (deliver_tls server msg tls (
                subst
                  (λ o. Has (login server.username server.password) (deliver refuses server o).0) e
                  h))
      ]
