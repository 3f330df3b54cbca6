-- ===== src/Deploy/Verified.antt =====
-- crates/mai-core/src/deploy.rs: a probe is replaced only by an upload whose hash the host has confirmed.
use multi_ai.Base.{
  ok-injective, ◌≡◌, refl, ap, ◌⊎◌, inl, inr, Bool, true, false, Option, none, some, List, [], ◌∷◌,
  ◌++◌, Text, text, ◌==◌, list_eq, nat_eq, option_eq, Result, ok, err, if_cases, split_char,
  list_beq_iff,
}
use multi_ai.Deploy.{SshError}
use multi_ai.Deploy.{
  Os, linux, mac_os, windows, Remote, exe_name, probe_path, hash_command, ExecOutput, IoError,
}
use multi_ai.Deploy.Detect.{parse_hash}
use multi_ai.Deploy.Asked.{Asks, hash_command-Asks}
use multi_ai.Deploy.Run.{
  Call, exec, open_sftp, try_exists, create_dir, create, write_all, shutdown, set_mode, remove_file,
  swap_in, Answers, Course, and_then, over_ssh, over_sftp, ask_exists, make_missing, make_dirs,
  make_executable, swapped, check_hash, verify, upload_probe, Texts, join_path,
}

-- A call stands in a list, and stands there before another.
abbrev pub Calls : Call → List Call → Type 0
Calls c [] = ⊥
Calls c (d ∷ ds) = (d ≡ c) ⊎ Calls c ds

abbrev pub Before : Call → Call → List Call → Type 0
Before b c [] = ⊥
Before b c (d ∷ ds) = ((d ≡ b) × Calls c ds) ⊎ Before b c ds

pub Calls_sooner : (c : Call) (cs ds : List Call) → Calls c cs → Calls c (cs ++ ds)
Calls_sooner c [] ds h = elim h [ ]
Calls_sooner c (d ∷ cs) ds (inl h) = inl h
Calls_sooner c (d ∷ cs) ds (inr h) = inr (Calls_sooner c cs ds h)

Calls-append : (c : Call) (cs ds : List Call) → Calls c (cs ++ ds) → Calls c cs ⊎ Calls c ds
Calls-append c [] ds h = inr h
Calls-append c (d ∷ cs) ds (inl h) = inl (inl h)
Calls-append c (d ∷ cs) ds (inr h) = elim (Calls-append c cs ds h) [
  | inl a ↦ inl (inr a)
  | inr b ↦ inr b
]

Before-sooner : (b c : Call) (cs ds : List Call) → Before b c cs → Before b c (cs ++ ds)
Before-sooner b c [] ds h = elim h [ ]
Before-sooner b c (d ∷ cs) ds (inl h) = inl (h.0, Calls_sooner c cs ds h.1)
Before-sooner b c (d ∷ cs) ds (inr h) = inr (Before-sooner b c cs ds h)

Before-Calls : (b c : Call) (cs : List Call) → Before b c cs → Calls b cs
Before-Calls b c [] h = h
Before-Calls b c (d ∷ cs) (inl h) = inl h.0
Before-Calls b c (d ∷ cs) (inr h) = inr (Before-Calls b c cs h)

-- What holds of a part of the calls and then of all of them.
pub record IsClosed {ℓ} (Q : List Call → Type ℓ) : Type ℓ where
  pub left : (c : Call) (cs : List Call) → Q cs → Q (c ∷ cs)
  pub right : (cs ds : List Call) → Q cs → Q (cs ++ ds)

pub left_all {ℓ} : {Q : List Call → Type ℓ} → IsClosed Q → (cs ds : List Call) → Q ds → Q (cs ++ ds)
left_all k [] ds q = q
left_all k (c ∷ cs) ds q = k.left c (cs ++ ds) (left_all k cs ds q)

-- If a call stands in the calls of a course, it stands in the first part or in the rest, after a result.
pub through {ℓ κ} :
    {A : Type ℓ} {B : Type κ} (Q : List Call → Type 0) (c : Call) (k : IsClosed Q) (r : Course A)
    (next : A → Course B)
    → (Calls c r.0 → Q r.0)
    → ((a : A) → r.1 ≡ ok a → Calls c (next a).0 → Q (next a).0)
    → Calls c (and_then r next).0
    → Q (and_then r next).0
through Q c k (cs, err x) next f g h = f h
through Q c k (cs, ok a) next f g h = elim (Calls-append c cs (next a).0 h) [
  | inl s ↦ k.right cs (next a).0 (f s)
  | inr s ↦ left_all k cs (next a).0 (g a refl s)
]

pub call_none :
    (P : Type 0) (p : Text) (c : Call) → (c ≡ swap_in p → ⊥) → Calls (swap_in p) (c ∷ []) → P
call_none P p c n (inl h) = elim (n h) [ ]
call_none P p c n (inr h) = elim h [ ]

pub over_ssh_none {ℓ} :
    {A : Type ℓ} (P : Type 0) (p : Text) (c : Call) (r : Result A SshError)
    → (c ≡ swap_in p → ⊥)
    → Calls (swap_in p) (over_ssh c r).0
    → P
over_ssh_none P p c (ok a) n h = call_none P p c n h
over_ssh_none P p c (err e) n h = call_none P p c n h

pub over_ssh_ok {ℓ} :
    {A : Type ℓ} (c : Call) (r : Result A SshError) {a : A} → (over_ssh c r).1 ≡ ok a → r ≡ ok a
over_ssh_ok c (ok b) h = ap ok (ok-injective h)
over_ssh_ok c (err e) h = cc

-- Where the probe is put, relative to the home directory.
abbrev pub place_of : Remote → Text → Text
place_of r dir = (dir ++ text "/bin") ++ (text "/" ++ exe_name r.os)

-- The command that computes the hash of the uploaded file.
abbrev pub upload_hash : Remote → Text → Text
upload_hash r dir = hash_command r.os r.shell (probe_path r dir ++ text ".upload")

module _ (x : Texts) (w : Answers) where
  over_sftp_none :
      (P : Type 0) (p : Text) (c : Call) (r : Option IoError)
      → (c ≡ swap_in p → ⊥)
      → Calls (swap_in p) (over_sftp x w c r).0
      → P
  over_sftp_none P p c none n h = call_none P p c n h
  over_sftp_none P p c (some e) n h = call_none P p c n h

  ask_exists_none :
      (P : Type 0) (p path : Text) (r : Result Bool IoError)
      → Calls (swap_in p) (ask_exists x w path r).0
      → P
  ask_exists_none P p path (ok b) h = call_none P p (try_exists path) (λ f. cc) h
  ask_exists_none P p path (err e) h = call_none P p (try_exists path) (λ f. cc) h

  make_missing_none :
      (P : Type 0) (p path : Text) (b : Bool) → Calls (swap_in p) (make_missing x w path b).0 → P
  make_missing_none P p path true h = elim h [ ]
  make_missing_none P p path false h =
      over_sftp_none P p (create_dir path) (w.create_dir path) (λ f. cc) h

  nothing_closed : IsClosed (λ cs. ⊥)
  nothing_closed = record { left = λ c cs q. q; right = λ cs ds q. q }

  make_dirs_none :
      (p path : Text) (parts : List Text) → Calls (swap_in p) (make_dirs x w path parts).0 → ⊥
  unfolding make_dirs
  make_dirs_none p path [] h = h
  make_dirs_none p path (part ∷ parts) h =
      let next : Text = join_path x w path part in
      through (λ cs. ⊥) (swap_in p) nothing_closed (ask_exists x w next (w.exists next)) _
        (ask_exists_none ⊥ p next (w.exists next))
        (λ there _.
          through (λ cs. ⊥) (swap_in p) nothing_closed (make_missing x w next there) _
            (make_missing_none ⊥ p next there) (λ _ _. make_dirs_none p next parts))
        h

  make_executable_none :
      (P : Type 0) (p : Text) (os : Os) (tmp : Text)
      → Calls (swap_in p) (make_executable x w os tmp).0
      → P
  make_executable_none P p windows tmp h = elim h [ ]
  make_executable_none P p linux tmp h = over_sftp_none P p (set_mode tmp) w.set_mode (λ f. cc) h
  make_executable_none P p mac_os tmp h = over_sftp_none P p (set_mode tmp) w.set_mode (λ f. cc) h

  swapped_place :
      (place p : Text) (o : Option Text) → Calls (swap_in p) (swapped x w place o).0 → p ≡ place
  swapped_place place p none (inl h) = cc h
  swapped_place place p none (inr h) = elim h [ ]
  swapped_place place p (some e) (inl h) = cc h
  swapped_place place p (some e) (inr h) = elim h [ ]

  check_hash_confirms :
      (bytes place tmp tmp_abs p : Text) (out : ExecOutput) (o : Option Text)
      → Calls (swap_in p) (check_hash x w bytes place tmp tmp_abs out o).0
      → (p ≡ place) × (o ≡ some (x.sha256_hex bytes))
  check_hash_confirms bytes place tmp tmp_abs p out none h =
      call_none ((p ≡ place) × (none ≡ some (x.sha256_hex bytes))) p (remove_file tmp) (λ f. cc) h
  check_hash_confirms bytes place tmp tmp_abs p out (some written) h =
      let P : Type 0 = (p ≡ place) × (some written ≡ some (x.sha256_hex bytes)) in
      if_cases {A = Course (Unit {0})} (λ r. Calls (swap_in p) r.0 → P)
        (written == x.sha256_hex bytes)
        (λ y k. (
          swapped_place place p (w.swap place) k,
          ap some ((list_beq_iff written (x.sha256_hex bytes)).0 y),
        ))
        (λ _ k. call_none P p (remove_file tmp) (λ f. cc) k) h

  -- The host computed the hash of the bytes for the uploaded file.
  abbrev pub Confirmed : Remote → Text → Text → Type 0
  Confirmed r dir bytes =
      Asks r (probe_path r dir ++ text ".upload")
      × (out : ExecOutput) × ((w.new_hash (upload_hash r dir) ≡ ok out)
          × (parse_hash out.stdout ≡ some (x.sha256_hex bytes)))

  -- The file is put in its place after the host was asked for the hash of the uploaded file.
  abbrev pub Checked : Remote → Text → Text → Text → List Call → Type 0
  Checked r dir bytes p cs =
      (p ≡ place_of r dir)
      × (Confirmed r dir bytes × Before (exec (upload_hash r dir)) (swap_in p) cs)

  -- And that after the bytes were written to that file.
  abbrev pub Replaces : Remote → Text → Text → Text → List Call → Type 0
  Replaces r dir bytes p cs =
      Checked r dir bytes p cs
      × Before (write_all (place_of r dir ++ text ".upload") bytes) (exec (upload_hash r dir)) cs

  Checked-IsClosed : (r : Remote) (dir bytes p : Text) → IsClosed (Checked r dir bytes p)
  Checked-IsClosed r dir bytes p = record {
    left = λ c cs (e, (f, b)). (e, (f, inr b));
    right =
        λ cs ds (e, (f, b)). (e, (f, Before-sooner (exec (upload_hash r dir)) (swap_in p) cs ds b));
  }

  pub Replaces-IsClosed : (r : Remote) (dir bytes p : Text) → IsClosed (Replaces r dir bytes p)
  Replaces-IsClosed r dir bytes p =
      let k : IsClosed (Checked r dir bytes p) = Checked-IsClosed r dir bytes p in
      record {
        left = λ c cs (q, b). (k.left c cs q, inr b);
        right = λ cs ds (q, b). (
          k.right cs ds q,
          Before-sooner (write_all (place_of r dir ++ text ".upload") bytes)
              (exec (upload_hash r dir)) cs ds b,
        );
      }

  -- What follows the answer that gives the hash.
  Checked-by :
      (r : Remote) (dir bytes p tmp : Text) (o : Result ExecOutput SshError)
      → w.new_hash (upload_hash r dir) ≡ o
      → let place : Text = place_of r dir in
        let v : Course (Unit {0}) = and_then (over_ssh (exec (upload_hash r dir)) o) (λ out.
          check_hash x w bytes place tmp
            (probe_path r dir ++ text ".upload")
            out
            (parse_hash out.stdout)) in
        Calls (swap_in p) v.0 → Checked r dir bytes p v.0
  Checked-by r dir bytes p tmp (err e) q h = call_none _ p (exec (upload_hash r dir)) (λ f. cc) h
  Checked-by r dir bytes p tmp (ok out) q (inl h) = cc
  Checked-by r dir bytes p tmp (ok out) q (inr h) =
      let (e, f) =
        check_hash_confirms bytes (place_of r dir) tmp (probe_path r dir ++ text ".upload") p out
          (parse_hash out.stdout) h in
      (e, ((hash_command-Asks r (probe_path r dir ++ text ".upload"), out, (q, f)), inl (refl, h)))

  verify-Checked :
      (r : Remote) (dir bytes p tmp : Text)
      → Calls (swap_in p) (verify x w r dir bytes (place_of r dir) tmp).0
      → Checked r dir bytes p (verify x w r dir bytes (place_of r dir) tmp).0
  unfolding verify
  verify-Checked r dir bytes p tmp h =
      Checked-by r dir bytes p tmp (w.new_hash (upload_hash r dir)) refl h

  -- The bytes are written before what follows.
  write_first :
      {B : Type 0} (r : Remote) (dir bytes p : Text) (o : Option IoError)
      (next : Unit {0} → Course B)
      → let c : Call = write_all (place_of r dir ++ text ".upload") bytes in
        ((u : Unit {0}) → Calls (swap_in p) (next u).0 → Checked r dir bytes p (next u).0)
        → Calls (swap_in p) (and_then (over_sftp x w c o) next).0
        → Replaces r dir bytes p (and_then (over_sftp x w c o) next).0
  write_first r dir bytes p (some e) next f h =
      call_none _ p (write_all (place_of r dir ++ text ".upload") bytes) (λ z. cc) h
  write_first r dir bytes p none next f (inl h) = cc
  write_first r dir bytes p none next f (inr h) =
      let c : Call = write_all (place_of r dir ++ text ".upload") bytes in
      let (e, (g, b)) = f tt h in
      (
        (e, (g, inr b)),
        inl (refl, Before-Calls (exec (upload_hash r dir)) (swap_in p) (next tt).0 b),
      )

  pub upload-Replaces :
      (r : Remote) (dir bytes p : Text)
      → Calls (swap_in p) (upload_probe x w r dir bytes).0
      → Replaces r dir bytes p (upload_probe x w r dir bytes).0
  unfolding upload_probe
  upload-Replaces r dir bytes p h =
      let place : Text = place_of r dir in
      let tmp : Text = place ++ text ".upload" in
      let s : Call = swap_in p in
      let Q : List Call → Type 0 = Replaces r dir bytes p in
      let k : IsClosed Q = Replaces-IsClosed r dir bytes p in
      let V : List Call → Type 0 = Checked r dir bytes p in
      let j : IsClosed V = Checked-IsClosed r dir bytes p in
      through Q s k (over_ssh open_sftp w.sftp) _
        (over_ssh_none (Q (over_ssh open_sftp w.sftp).0) p open_sftp w.sftp (λ f. cc))
        (λ _ _.
          through Q s k (make_dirs x w [] (split_char 47 (dir ++ text "/bin"))) _
            (λ m. absurd (make_dirs_none p [] (split_char 47 (dir ++ text "/bin")) m))
            (λ _ _.
              through Q s k (over_sftp x w (create tmp) w.create) _
                (over_sftp_none (Q (over_sftp x w (create tmp) w.create).0) p (create tmp) w.create
                  (λ f. cc))
                (λ _ _. write_first r dir bytes p w.write_all _ (λ _.
                  through V s j (over_sftp x w (shutdown tmp) w.shutdown) _
                    (over_sftp_none (V (over_sftp x w (shutdown tmp) w.shutdown).0) p (shutdown tmp)
                      w.shutdown (λ f. cc))
                    (λ _ _.
                      through V s j (make_executable x w r.os tmp) _
                        (make_executable_none (V (make_executable x w r.os tmp).0) p r.os tmp)
                        (λ _ _. verify-Checked r dir bytes p tmp))))))
        h
