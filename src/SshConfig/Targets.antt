-- ===== src/SshConfig/Targets.antt =====
-- crates/mai-core/src/ssh/config.rs: the parts of a target are told apart (`split_target`).
use multi_ai.Base.{
  ℕ, ◌≡◌, refl, true, false, Option, none, some, [], ◌∷◌, ◌++◌, Text, nat_beq, ok, All, arith,
}
use multi_ai.SshConfig.{split_once, rsplit_once, split_rest, split_target}

-- The character `c` is not in the text.
abbrev pub Absent : ℕ → Text → Type 0
Absent c s = All (λ d. nat_beq d c ≡ false) s

nat_beq_self : (c : ℕ) → nat_beq c c ≡ true
nat_beq_self c = ground arith

split_once-none : (c : ℕ) (s : Text) → Absent c s → split_once c s ≡ none
split_once-none c [] h = refl
split_once-none c (d ∷ s) h = rw (h.0) (rw (split_once-none c s h.1) refl)

split_once_first : (c : ℕ) (s t : Text) → Absent c s → split_once c (s ++ c ∷ t) ≡ some (s, t)
split_once_first c [] t h = rw (nat_beq_self c) refl
split_once_first c (d ∷ s) t h = rw (h.0) (rw (split_once_first c s t h.1) refl)

rsplit_once-none : (c : ℕ) (s : Text) → Absent c s → rsplit_once c s ≡ none
rsplit_once-none c [] h = refl
rsplit_once-none c (d ∷ s) h = rw (rsplit_once-none c s h.1) (rw (h.0) refl)

rsplit_once_last : (c : ℕ) (s t : Text) → Absent c t → rsplit_once c (s ++ c ∷ t) ≡ some (s, t)
rsplit_once_last c [] t h = rw (rsplit_once-none c t h) (rw (nat_beq_self c) refl)
rsplit_once_last c (d ∷ s) t h = rw (rsplit_once_last c s t h) refl

plain_host :
    (t : Text) (user : Option Text) (c : ℕ) (host : Text)
    → nat_beq c 91 ≡ false
    → Absent 58 (c ∷ host)
    → split_rest t user (c ∷ host) ≡ ok (record { user = user; host = c ∷ host; port = none })
plain_host t user c host n h = rw n (rw (split_once-none 58 (c ∷ host) h) refl)

-- In `user@host`, if the host is not empty, does not start with a bracket and has no colon and no `@`, the user is
-- all before the last `@`, also if the user has an `@` or a colon itself, and the host is kept whole with no port.
pub split_target_host :
    (user : Text) (c : ℕ) (host : Text)
    → nat_beq c 91 ≡ false
    → Absent 58 (c ∷ host)
    → Absent 64 (c ∷ host)
    → split_target (user ++ 64 ∷ c ∷ host)
      ≡ ok (record { user = some user; host = c ∷ host; port = none })
unfolding split_target
split_target_host user c host n p a =
    rw (rsplit_once_last 64 user (c ∷ host) a)
      (plain_host (user ++ 64 ∷ c ∷ host) (some user) c host n p)

-- In `user@[address]` the address may have colons.
pub split_target_address :
    (user address : Text)
    → Absent 93 address
    → Absent 64 (91 ∷ (address ++ 93 ∷ []))
    → split_target (user ++ 64 ∷ 91 ∷ (address ++ 93 ∷ []))
      ≡ ok (record { user = some user; host = address; port = none })
unfolding split_target
split_target_address user address b a =
    rw (rsplit_once_last 64 user (91 ∷ (address ++ 93 ∷ [])) a)
      (rw (split_once_first 93 address [] b) refl)
