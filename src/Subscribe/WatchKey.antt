-- ===== src/Subscribe/WatchKey.antt =====
-- The watch key that a subscription made in the form carries is the one the watcher queries.
use interchain_event.Common.{
  ℕ, ◌<◌, ◌/◌, ◌%◌, ◌≡◌, refl, sym, ap, ◌∙◌, false, none, some, [], ◌∷◌, ◌++◌, arith, All,
  Option-cases, inl, inr,
}
use interchain_event.Js.Text.{Text, text}
use interchain_event.Js.Number.{digit, parse_int, to_uint8}
use interchain_event.Js.Base64.{atob}
use interchain_event.Js.Base64.Encode.{btoa, encode_base64, atob-encode_base64}
use interchain_event.Codec.Hex.{Bytes, IsByte, byte_to_hex, bytes_to_hex}
use interchain_event.Codec.Hex.RoundTrip.{byte_to_hex-eq-digits, parse_digits}
use interchain_event.Js.Number.{to_text}
use interchain_event.Watcher.Types.{Subscription, check}
use interchain_event.Watcher.Condition.{Engine}
use interchain_event.Watcher.Fetch.{is_empty}
use interchain_event.Watcher.Machine.{
  Services, Outcome, ok, threw, M, ◌>>=◌, ◌>>◌, return, try, lift, add_event,
}
use interchain_event.Watcher.Process.{
  check_and_submit, report_error, process_watched, process_subscription,
}
use interchain_event.Subscribe.Form.{
  SubscribeMsg, Form, is_line_end, pair_bytes, watch_key_base64, text_or, subscribe_msg,
}

digit_no_line_end : (d : ℕ) → d < 16 → is_line_end (digit d) ≡ false
unfolding digit
digit_no_line_end d h = ground arith

pair_bytes-pair :
    (a b : ℕ) (s : Text)
    → is_line_end a ≡ false
    → is_line_end b ≡ false
    → pair_bytes (a ∷ b ∷ s) ≡ to_uint8 (parse_int 16 (a ∷ b ∷ [])) ∷ pair_bytes s
unfolding pair_bytes
pair_bytes-pair a b s ha hb = simp (pair_bytes, ha, hb)

pair_bytes-byte :
    (b : ℕ) (hex : Text) → IsByte b → pair_bytes (byte_to_hex b ++ hex) ≡ b ∷ pair_bytes hex
pair_bytes-byte b hex h = rw (byte_to_hex-eq-digits b h) (
    pair_bytes-pair _ _ hex (digit_no_line_end (b / 16) (omega arith))
      (digit_no_line_end (b % 16) (omega arith))
    ∙ ap (λ (x : ℕ). x ∷ pair_bytes hex) (parse_digits b h))

pub pair_bytes-bytes_to_hex :
    (bytes : Bytes) → All IsByte bytes → pair_bytes (bytes_to_hex bytes) ≡ bytes
unfolding bytes_to_hex
pair_bytes-bytes_to_hex [] h = unfold pair_bytes in refl
pair_bytes-bytes_to_hex (b ∷ bytes) (hb, h) =
    pair_bytes-byte b (bytes_to_hex bytes) hb
    ∙ ap (λ (t : Bytes). b ∷ t) (pair_bytes-bytes_to_hex bytes h)

watch_key_encoded :
    (bytes : Bytes) → All IsByte bytes → watch_key_base64 (bytes_to_hex bytes) ≡ encode_base64 bytes
unfolding watch_key_base64
watch_key_encoded bytes h = ap encode_base64 (pair_bytes-bytes_to_hex bytes h)

-- What the contract's answer is decoded to is the key of the tree's row.
pub watch_key_read :
    (bytes : Bytes) → All IsByte bytes → atob (watch_key_base64 (bytes_to_hex bytes)) ≡ some bytes
watch_key_read bytes h = ap atob (watch_key_encoded bytes h) ∙ atob-encode_base64 bytes h

nonempty_watch_key : (b : ℕ) (bytes : Bytes) → is_empty (encode_base64 (b ∷ bytes)) ≡ false
unfolding encode_base64
nonempty_watch_key b [] = refl
nonempty_watch_key b (c ∷ []) = refl
nonempty_watch_key b (c ∷ d ∷ bytes) = refl

abbrev key_or : Text → Outcome SubscribeMsg → Text
key_or key (ok msg) = msg.watch_key
key_or key (threw e) = key

subscribe_msg-key_or :
    (form : Form) (store_key : Text)
    → key_or (watch_key_base64 store_key) (subscribe_msg form store_key)
      ≡ watch_key_base64 store_key
unfolding subscribe_msg
subscribe_msg-key_or form store_key =
    elim (Option-cases (btoa (text_or (text "{}") form.callback_msg))) [
      | inl bad ↦ simp (subscribe_msg, bad)
      | inr (callback_msg, good) ↦ simp (subscribe_msg, good)
    ]

subscribe_msg-watch_key :
    (form : Form) (store_key : Text) (msg : SubscribeMsg)
    → subscribe_msg form store_key ≡ ok msg
    → msg.watch_key ≡ watch_key_base64 store_key
subscribe_msg-watch_key form store_key msg made =
    sym (ap (key_or (watch_key_base64 store_key)) made) ∙ subscribe_msg-key_or form store_key

module _ (services : Services) (engine : Engine) (mnemonic : Text) where
  -- The check of a subscription whose key is decoded.
  abbrev pub watching : Subscription → Text → M (Unit {0})
  watching sub key_hex = do
    add_event services sub.id check
        (text "Checking subscription "
          ++ (to_text sub.id
              ++ (text " (condition: " ++ (services.stringify sub.condition ++ text ")"))))
        none
    try (check_and_submit services engine sub mnemonic key_hex) (report_error services engine sub)

  process_watched-decoded :
      (sub : Subscription) (key : Bytes)
      → atob sub.watch_key ≡ some key
      → process_watched services engine sub mnemonic ≡ watching sub (bytes_to_hex key)
  unfolding process_watched
  process_watched-decoded sub key read = rw read (unfold lift return ◌>>=◌ in refl)

  process_subscription-watched :
      (sub : Subscription)
      → is_empty sub.watch_key ≡ false
      → process_subscription services engine sub mnemonic
        ≡ process_watched services engine sub mnemonic
  unfolding process_subscription
  process_subscription-watched sub present = simp present

  -- If the store key of a row is the hex of some bytes, at least one, and the form makes a message
  -- of it, then for a subscription with the message's watch key `processSubscription` notes the
  -- check and runs the `try` block for exactly that store key.
  pub form_watched :
      (form : Form) (b : ℕ) (bytes : Bytes) (msg : SubscribeMsg) (sub : Subscription)
      → All IsByte (b ∷ bytes)
      → subscribe_msg form (bytes_to_hex (b ∷ bytes)) ≡ ok msg
      → sub.watch_key ≡ msg.watch_key
      → process_subscription services engine sub mnemonic ≡ watching sub (bytes_to_hex (b ∷ bytes))
  form_watched form b bytes msg sub h made same =
      let key : sub.watch_key ≡ watch_key_base64 (bytes_to_hex (b ∷ bytes)) =
        same ∙ subscribe_msg-watch_key form _ msg made in
      let read : atob sub.watch_key ≡ some (b ∷ bytes) =
        ap atob key ∙ watch_key_read (b ∷ bytes) h in
      let present : is_empty sub.watch_key ≡ false =
        ap is_empty (key ∙ watch_key_encoded (b ∷ bytes) h) ∙ nonempty_watch_key b bytes in
      process_subscription-watched sub present ∙ process_watched-decoded sub (b ∷ bytes) read
