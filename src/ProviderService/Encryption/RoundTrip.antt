-- ===== src/ProviderService/Encryption/RoundTrip.antt =====
-- Decryption undoes encryption.
use goauth_server.Prelude.{
  ℕ, ◌≤◌, ◌≡◌, refl, ap, ◌∙◌, subst, String, true, false, some, List, [], ◌∷◌, ◌++◌, ltb, arith,
}
use goauth_server.Environment.{Environment}
use goauth_server.Exec.{ok, World}
use goauth_server.Exec.Hoare.{Triple, Triple-bind, Triple-pure, Triple-ask, Triple-lift_option}
use goauth_server.Exec.Facts.{Any, after_guard}
use goauth_server.Repository.Pages.{count, take, drop}
use goauth_server.ProviderService.Encryption.{valid_key, encrypt, decrypt, open_bytes}

take-++ : (ns bs : List ℕ) → take (count ns) (ns ++ bs) ≡ ns
unfolding take count
take-++ [] bs = refl
take-++ (n ∷ ns) bs = ap (λ l. n ∷ l) (take-++ ns bs)

drop-++ : (ns bs : List ℕ) → drop (count ns) (ns ++ bs) ≡ bs
unfolding drop count
drop-++ [] bs = refl
drop-++ (n ∷ ns) bs = drop-++ ns bs

count-++ : (ns bs : List ℕ) → count ns ≤ count (ns ++ bs)
unfolding count
count-++ [] bs = omega arith
count-++ (n ∷ ns) bs = let rest = count-++ ns bs in omega arith

-- What the program relies on: the encoding is undone by the decoding, Open undoes Seal with the same
-- key and nonce, and 12 random bytes are 12.
pub record Sealed (e : Environment) (key : List ℕ) (plaintext : String) : Type 0 where
  pub decodes : (b : List ℕ) → e.base64_url_decode (e.base64_url_encode b) ≡ some b
  pub opens :
      (nonce : List ℕ) → e.gcm_open key nonce (e.gcm_seal key nonce plaintext) ≡ some plaintext
  pub fills : (k : ℕ) (b : List ℕ) → e.random k 12 ≡ some b → count b ≡ 12

module _ (e : Environment) (key : List ℕ) (plaintext : String)
    (sealed : Sealed e key plaintext) where
  decrypt-sealed :
      (nonce : List ℕ)
      → count nonce ≡ 12
      → valid_key key ≡ true
      → decrypt e key (e.base64_url_encode (nonce ++ e.gcm_seal key nonce plaintext)) ≡ ok plaintext
  unfolding decrypt
  decrypt-sealed nonce twelve valid =
      let bytes = nonce ++ e.gcm_seal key nonce plaintext in
      let more = count-++ nonce (e.gcm_seal key nonce plaintext) in
      let long : ltb (count bytes) 12 ≡ false = ground (arith, twelve, more) in
      let front : take 12 bytes ≡ nonce =
        subst (λ n. take n bytes ≡ nonce) twelve (take-++ nonce _) in
      let back : drop 12 bytes ≡ e.gcm_seal key nonce plaintext =
        subst (λ n. drop n bytes ≡ e.gcm_seal key nonce plaintext) twelve (drop-++ nonce _) in
      rw (sealed.decodes bytes, valid, long, open_bytes, front, back, sealed.opens nonce) refl

  pub encrypt-decrypts :
      {P : World → Type 0}
      → Triple P (encrypt e key plaintext) (λ c w. Unit {0} × (decrypt e key c ≡ ok plaintext)) Any
  unfolding encrypt
  encrypt-decrypts = after_guard (valid_key key) _ _ λ valid.
      Triple-bind (λ o w. (k : ℕ) × (e.random k 12 ≡ o)) _ _ (Triple-ask e _ λ w p. (w.tick, refl))
        λ o.
          Triple-bind (λ nonce w. (k : ℕ) × (e.random k 12 ≡ some nonce)) _ _
            (Triple-lift_option _ o (λ nonce w it (k, drawn). (k, drawn ∙ it)) (λ w p. tt))
            λ nonce.
              Triple-pure _
                λ w (k, drawn). (tt, decrypt-sealed nonce (sealed.fills k nonce drawn) valid)
