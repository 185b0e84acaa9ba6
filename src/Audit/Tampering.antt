-- ===== src/Audit/Tampering.antt =====
-- What the verification of security/audit_logger.py detects, and what it does not.
use distributed_sync_system.Base.{
  ℕ, suc, zero, ◌≡◌, refl, sym, ap, ap₂, ◌∙◌, none, List, [], ◌∷◌, String, arith, length, take,
}
use distributed_sync_system.Audit.Log.{
  Content, AuditEntry, AuditLogger, valid, verify_from, verify_integrity,
}
use distributed_sync_system.Audit.Chain.{end_hash}

module _ {D : Type 0} (digest : Content D → String) where
  -- The digest tells the contents at the same places of the files apart.
  abbrev pub NoCollision : List (AuditEntry D) → List (AuditEntry D) → Type 0
  NoCollision [] ys = Unit {0}
  NoCollision (x ∷ xs) [] = Unit {0}
  NoCollision (x ∷ xs) (y ∷ ys) =
      (digest x.content ≡ digest y.content → x.content ≡ y.content) × NoCollision xs ys

  verified_cons :
      (h : String) (e : AuditEntry D) (es : List (AuditEntry D))
      → verify_from digest h (e ∷ es) ≡ none
      → (e.entry_hash ≡ digest e.content)
        × (e.content.prev_hash ≡ h)
        × (verify_from digest e.entry_hash es ≡ none)
  unfolding verify_from
  verified_cons h e es v = ground arith

  entry_ext : (x y : AuditEntry D) → x.content ≡ y.content → x.entry_hash ≡ y.entry_hash → x ≡ y
  entry_ext x y p q =
      ap₂ (λ (c : Content D) (h : String). record { content = c; entry_hash = h }) p q

  same_from :
      (g h : String) (xs ys : List (AuditEntry D))
      → length xs ≡ length ys
      → NoCollision xs ys
      → verify_from digest g xs ≡ none
      → verify_from digest h ys ≡ none
      → end_hash g xs ≡ end_hash h ys
      → (xs ≡ ys) × (g ≡ h)
  same_from g h [] [] l n v w q = (refl, q)
  same_from g h [] (y ∷ ys) l n v w q = absurd (omega (arith, l))
  same_from g h (x ∷ xs) [] l n v w q = absurd (omega (arith, l))
  same_from g h (x ∷ xs) (y ∷ ys) l n v w q =
      let (a, b, c) = verified_cons g x xs v in
      let (a', b', c') = verified_cons h y ys w in
      let (rest, hash) = same_from x.entry_hash y.entry_hash xs ys (omega (arith, l)) n.1 c c' q in
      let content = n.0 (sym a ∙ hash ∙ a') in
      (
        ap₂ (λ (e : AuditEntry D) (es : List (AuditEntry D)). e ∷ es) (entry_ext x y content hash)
            rest,
        sym b ∙ ap (λ (k : Content D). k.prev_hash) content ∙ b',
      )

  verified_of_valid :
      (l : AuditLogger) (xs : List (AuditEntry D)) (k : ℕ)
      → verify_integrity digest l xs ≡ valid k
      → verify_from digest "genesis" xs ≡ none
  unfolding verify_integrity
  verified_of_valid l xs k h = ground arith

  -- Of two logs of the same length that both verify and end with the same hash, the files are the same,
  -- unless the digest collides at some place: a change of any entry that keeps the last hash is
  -- detected.
  pub verify_integrity_unique :
      (l m : AuditLogger) (xs ys : List (AuditEntry D)) (j k : ℕ)
      → verify_integrity digest l xs ≡ valid j
      → verify_integrity digest m ys ≡ valid k
      → length xs ≡ length ys
      → end_hash "genesis" xs ≡ end_hash "genesis" ys
      → NoCollision xs ys
      → xs ≡ ys
  verify_integrity_unique l m xs ys j k v w s q n =
      (same_from "genesis" "genesis" xs ys s n (verified_of_valid l xs j v)
        (verified_of_valid m ys k w) q).0

  verify_from-take :
      (h : String) (n : ℕ) (es : List (AuditEntry D))
      → verify_from digest h es ≡ none
      → verify_from digest h (take n es) ≡ none
  unfolding verify_from
  verify_from-take h zero es v = refl
  verify_from-take h (suc n) [] v = refl
  verify_from-take h (suc n) (e ∷ es) v = ground (arith, verify_from-take e.entry_hash n es)

  -- A log that verifies still does, with the same number of entries reported, when its file loses any
  -- number of entries at its end.
  pub verify_integrity_truncated :
      (l : AuditLogger) (xs : List (AuditEntry D)) (n k : ℕ)
      → verify_integrity digest l xs ≡ valid k
      → verify_integrity digest l (take n xs) ≡ valid k
  unfolding verify_integrity
  verify_integrity_truncated l xs n k h =
      let cut = verify_from-take "genesis" n xs (verified_of_valid l xs k h) in
      ground (arith, cut, verified_of_valid l xs k h)
