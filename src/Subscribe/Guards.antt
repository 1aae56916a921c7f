-- ===== src/Subscribe/Guards.antt =====
-- What `handleSubmit` of frontend/app/components/SubscribeModal.vue sends, and when.
use mathlib.Core.Path.{subst}
use interchain_event.Common.{
  ◌≡◌, refl, ap, ◌∙◌, true, false, none, List, [], ◌∷◌, ◌++◌, ◌⊎◌, inl, inr, Bool-cases,
}
use interchain_event.Watcher.Fetch.{is_empty}
use interchain_event.Watcher.Machine.{Outcome, ok, threw}
use interchain_event.Explorer.LoadMore.{Outcome-cases}
use interchain_event.Subscribe.Keplr.{Keplr, Wallet, Receipt, connect, execute_subscribe}
use interchain_event.Subscribe.Form.{
  SubscribeMsg, Form, Submission, subscribe_msg, truthy_key, finish_submit, send_subscription,
  submit_ready, handle_submit,
}

-- The form has all that a subscription needs, and this is its message.
pub record IsReady (form : Form) (msg : SubscribeMsg) : Type 0 where
  pub client : is_empty form.client_id ≡ false
  pub watched : is_empty (truthy_key form.store_key) ≡ false
  pub callback : is_empty form.callback_contract ≡ false
  pub made : subscribe_msg form (truthy_key form.store_key) ≡ ok msg

-- From `s` to `t` nothing was sent, or one message, of a form that is ready, with a wallet connected.
abbrev pub SentOnce : Form → Submission → Submission → Type 0
SentOnce form s t =
    (t.sent ≡ s.sent)
    ⊎ ((msg : SubscribeMsg) × (t.sent ≡ msg ∷ s.sent)
        × (t.keplr.connected ≡ true)
        × IsReady form msg)

module _ (wallet : Wallet SubscribeMsg) (form : Form) where
  execute_subscribe-sent :
      (k : Keplr) (msg : SubscribeMsg)
      → ((execute_subscribe wallet k msg).1 ≡ []) ⊎ ((execute_subscribe wallet k msg).1 ≡ msg ∷ [])
  unfolding execute_subscribe
  execute_subscribe-sent k msg = elim (Bool-cases k.connected) [
    | inl linked ↦ elim (Outcome-cases wallet.connect_with_signer) [
      | inl (u, signed) ↦ elim (Outcome-cases (wallet.execute k.address msg)) [
        | inl (r, done) ↦ inr (simp (linked, signed, done))
        | inr (e, failed) ↦ inr (simp (linked, signed, failed))
      ]
      | inr (e, failed) ↦ inl (simp (linked, failed))
    ]
    | inr unlinked ↦ inl (simp unlinked)
  ]

  finish_submit-sent :
      (s : Submission) (r : Outcome Receipt × List SubscribeMsg)
      → (finish_submit wallet form s r).sent ≡ r.1 ++ s.sent
  unfolding finish_submit
  finish_submit-sent s (ok receipt, sent) = refl
  finish_submit-sent s (threw e, sent) = refl

  finish_submit-keplr :
      (s : Submission) (r : Outcome Receipt × List SubscribeMsg)
      → (finish_submit wallet form s r).keplr ≡ s.keplr
  unfolding finish_submit
  finish_submit-keplr s (ok receipt, sent) = refl
  finish_submit-keplr s (threw e, sent) = refl

  finish_submit-SentOnce :
      (s : Submission) (msg : SubscribeMsg)
      → s.keplr.connected ≡ true
      → is_empty form.client_id ≡ false
      → is_empty (truthy_key form.store_key) ≡ false
      → is_empty form.callback_contract ≡ false
      → subscribe_msg form (truthy_key form.store_key) ≡ ok msg
      → SentOnce form s (finish_submit wallet form s (execute_subscribe wallet s.keplr msg))
  finish_submit-SentOnce s msg linked client watched callback made =
      let r = execute_subscribe wallet s.keplr msg in
      let sent = finish_submit-sent s r in
      elim (execute_subscribe-sent s.keplr msg) [
        | inl nothing ↦ inl (sent ∙ ap (λ (l : List SubscribeMsg). l ++ s.sent) nothing)
        | inr one ↦ inr (
          msg,
          sent ∙ ap (λ (l : List SubscribeMsg). l ++ s.sent) one,
          ap (λ (k : Keplr). k.connected) (finish_submit-keplr s r) ∙ linked,
          record { client = client; watched = watched; callback = callback; made = made },
        )
      ]

  send_subscription-SentOnce :
      (s : Submission)
      → s.keplr.connected ≡ true
      → is_empty form.client_id ≡ false
      → is_empty (truthy_key form.store_key) ≡ false
      → is_empty form.callback_contract ≡ false
      → SentOnce form s (send_subscription wallet form s (truthy_key form.store_key))
  unfolding send_subscription
  send_subscription-SentOnce s linked client watched callback =
      elim (Outcome-cases (subscribe_msg form (truthy_key form.store_key))) [
        | inr (e, failed) ↦
            let became : send_subscription wallet form s (truthy_key form.store_key)
                ≡ finish_submit wallet form s (threw e, []) =
              simp (send_subscription, failed) in
            inl (ap (λ (t : Submission). t.sent) became ∙ finish_submit-sent s (threw e, []))
        | inl (msg, made) ↦
            let r = execute_subscribe wallet s.keplr msg in
            let became : finish_submit wallet form s r
                ≡ send_subscription wallet form s (truthy_key form.store_key) =
              simp (send_subscription, made) in
            subst (SentOnce form s) became
              (finish_submit-SentOnce s msg linked client watched callback made)
      ]

  submit_ready-SentOnce :
      (s : Submission) → s.keplr.connected ≡ true → SentOnce form s (submit_ready wallet form s)
  unfolding submit_ready
  submit_ready-SentOnce s linked = elim (Bool-cases (is_empty form.client_id)) [
    | inl no_client ↦ inl (simp no_client)
    | inr client ↦ elim (Bool-cases (is_empty (truthy_key form.store_key))) [
      | inl no_key ↦ inl (simp (client, no_key))
      | inr watched ↦ elim (Bool-cases (is_empty form.callback_contract)) [
        | inl no_callback ↦ inl (simp (client, watched, no_callback))
        | inr callback ↦
            let same : send_subscription wallet form s (truthy_key form.store_key)
                ≡ submit_ready wallet form s =
              simp (submit_ready, client, watched, callback) in
            subst (SentOnce form s) same
              (send_subscription-SentOnce s linked client watched callback)
      ]
    ]
  ]

  -- Whatever the wallet does, one run of `handleSubmit` sends nothing, or one message with a
  -- wallet connected, and then client id, store key and callback contract of the form are not
  -- empty and the message is the one that is made of the form and its store key.
  pub handle_submit-SentOnce : (s : Submission) → SentOnce form s (handle_submit wallet form s)
  unfolding handle_submit
  handle_submit-SentOnce s =
      let cleared = record s { submit_error = none } in
      let asked = record cleared { keplr = connect wallet cleared.keplr } in
      elim (Bool-cases s.keplr.connected) [
        | inl linked ↦
            let same : submit_ready wallet form cleared ≡ handle_submit wallet form s =
              simp (handle_submit, linked) in
            subst (SentOnce form s) same (submit_ready-SentOnce cleared linked)
        | inr unlinked ↦ elim (Bool-cases (connect wallet s.keplr).connected) [
          | inl linked ↦
              let same : submit_ready wallet form asked ≡ handle_submit wallet form s =
                simp (handle_submit, unlinked, linked) in
              subst (SentOnce form s) same (submit_ready-SentOnce asked linked)
          | inr still ↦ inl (simp (unlinked, still))
        ]
      ]
