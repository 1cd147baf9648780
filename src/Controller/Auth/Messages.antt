-- ===== src/Controller/Auth/Messages.antt =====
-- auth.py and chainmcp/src/chainmcp/signing.py: the text that a proof signs, on both sides.
use a2a_tokenized_provisioni.Base.{
  ℕ, ◌≡◌, refl, ◌≢◌, ◌++◌, All, append-separator, append_cancel, arith,
}
use a2a_tokenized_provisioni.Base.Decimal.{Text, codes, decimal, decimal-ne, decimal_injective}
use a2a_tokenized_provisioni.Controller.Auth.{proof_message}

-- No `|` in a text.
abbrev pub HasNoBar : Text → Type 0
HasNoBar = All (λ x. x ≢ b'|')

-- `activation_proof_message` of signing.py
unfoldable pub activation_proof_message :
    (controller_id nonce : Text) (entitlement_id expires_at : ℕ) → Text
activation_proof_message controller_id nonce entitlement_id expires_at =
    codes "a2a-activate|"
    ++ (controller_id
        ++ (codes "|"
            ++ (nonce
                ++ (codes "|" ++ (decimal entitlement_id ++ (codes "|" ++ decimal expires_at))))))

-- The signer's message and the verifier's are one text, for every challenge.
pub activation_proof_message_eq :
    (controller_id nonce : Text) (entitlement_id expires_at : ℕ)
    → activation_proof_message controller_id nonce entitlement_id expires_at
      ≡ proof_message controller_id nonce entitlement_id expires_at (codes "activate")
unfolding activation_proof_message proof_message
activation_proof_message_eq controller_id nonce entitlement_id expires_at = refl

-- Under one controller a signed text fixes the action, the nonce, the entitlement and the expiry,
-- where actions and nonces hold no bar: no proof serves for another action or challenge.
pub proof_message_injective :
    (controller_id n m a b : Text) (i j x y : ℕ)
    → HasNoBar n
    → HasNoBar m
    → HasNoBar a
    → HasNoBar b
    → proof_message controller_id n i x a ≡ proof_message controller_id m j y b
    → (a ≡ b) × (n ≡ m) × (i ≡ j) × (x ≡ y)
unfolding proof_message
proof_message_injective controller_id n m a b i j x y hn hm ha hb e =
    let (same_action, e1) =
      append-separator b'|' a b
        (controller_id
          ++ (codes "|" ++ (n ++ (codes "|" ++ (decimal i ++ (codes "|" ++ decimal x))))))
        (controller_id
          ++ (codes "|" ++ (m ++ (codes "|" ++ (decimal j ++ (codes "|" ++ decimal y))))))
        ha hb (append_cancel (codes "a2a-") e) in
    let (same_nonce, e2) =
      append-separator b'|' n m (decimal i ++ (codes "|" ++ decimal x))
        (decimal j ++ (codes "|" ++ decimal y)) hn hm
        (append_cancel (codes "|") (append_cancel controller_id e1)) in
    let (same_id, e3) =
      append-separator b'|' (decimal i) (decimal j) (decimal x) (decimal y)
        (decimal-ne b'|' i (omega arith)) (decimal-ne b'|' j (omega arith)) e2 in
    (same_action, same_nonce, decimal_injective i j same_id, decimal_injective x y e3)
