-- ===== src/HostKey/Verdicts.antt =====
-- crates/mai-core/src/ssh/hostkey.rs: when a server's key is accepted.
use multi_ai.Base.{
  lines_loop, ℕ, ◌+◌, ◌≡◌, ◌↔◌, refl, ap, ◌∙◌, Bool, true, false, ◌&&◌, ◌||◌, not, Option, none,
  some, List, [], ◌∷◌, arith, Text, any, or_else, is_some, if◌then◌else◌,
}
use multi_ai.HostKey.{
  HostKeyStatus, known, unknown, revoked, host_name, Marker, revoked_key, Entry, FileVerdict, File,
  missing, failing, contents, Keys, host_matches, judge, scan_line, scan_lines, scan, check_files,
  check,
}

module _ {Key : Type 0} (k : Keys Key) where
  -- What one line says, on its own: it applies to the host, and has this key or one of the same
  -- algorithm.
  abbrev applies : Text → (Entry Key → Bool) → Text → Bool
  applies name p line = elim (k.parse line) [
    | none ↦ false
    | some e ↦ host_matches k e.host_patterns name && p e
  ]

  abbrev unmarked : Option Marker → Bool
  unmarked none = true
  unmarked (some m) = false

  abbrev marks_revoked : Option Marker → Bool
  marks_revoked (some revoked_key) = true
  marks_revoked _ = false

  abbrev pub records : Text → Key → Text → Bool
  records name key = applies name (λ e. unmarked e.marker && k.same_key e.public_key key)

  abbrev pub contradicts : Text → Key → Text → Bool
  contradicts name key = applies name (λ e.
      unmarked e.marker && (not (k.same_key e.public_key key) && k.same_algorithm e.public_key key))

  abbrev pub revokes : Text → Key → Text → Bool
  revokes name key = applies name (λ e. marks_revoked e.marker && k.same_key e.public_key key)

  -- The number of the first line that a test holds for.
  abbrev pub first_line : (Text → Bool) → ℕ → List Text → Option ℕ
  first_line p i [] = none
  first_line p i (l ∷ ls) = if p l then some (i + 1) else first_line p (i + 1) ls

  scan_line_lem :
      (n : ℕ) (line name : Text) (key : Key) (v : FileVerdict)
      → scan_line k n line name key v ≡ record {
        is_known = v.is_known || records name key line;
        changed_at =
            if contradicts name key line then or_else v.changed_at (some n) else v.changed_at;
        revoked_at = if revokes name key line then or_else v.revoked_at (some n) else v.revoked_at;
      }
  unfolding scan_line judge
  scan_line_lem n line name key v = ground arith

  scan_lines_lem :
      (i : ℕ) (ls : List Text) (name : Text) (key : Key) (v : FileVerdict)
      → scan_lines k i ls name key v ≡ record {
        is_known = v.is_known || any (records name key) ls;
        changed_at = or_else v.changed_at (first_line (contradicts name key) i ls);
        revoked_at = or_else v.revoked_at (first_line (revokes name key) i ls);
      }
  unfolding scan_lines
  scan_lines_lem i [] name key v = ground arith
  scan_lines_lem i (l ∷ ls) name key v =
      scan_lines_lem (i + 1) ls name key (scan_line k (i + 1) l name key v)
      ∙ rw (scan_line_lem (i + 1) l name key v) (ground arith)

  -- A file's verdict is that of its lines: the key is known if some line records it, and the first
  -- line that records another key of the algorithm, and the first that revokes the key, are named.
  -- A line that does not parse, or does not apply to the host, says nothing.
  pub scan_lem :
      (t name : Text) (key : Key)
      → scan k t name key ≡ record {
        is_known = any (records name key) (lines_loop [] t);
        changed_at = first_line (contradicts name key) 0 (lines_loop [] t);
        revoked_at = first_line (revokes name key) 0 (lines_loop [] t);
      }
  unfolding scan
  scan_lem t name key = scan_lines_lem 0 (lines_loop [] t) name key _

  first_line-some :
      (p : Text → Bool) (i : ℕ) (ls : List Text) → is_some (first_line p i ls) ≡ any p ls
  first_line-some p i [] = refl
  first_line-some p i (l ∷ ls) = ground (arith, first_line-some p (i + 1) ls)

  -- A file that speaks against the key, and one that speaks for it.
  abbrev pub objects : Text → Key → File → Bool
  objects name key missing = false
  objects name key (failing e) = true
  objects name key (contents t) =
      any (contradicts name key) (lines_loop [] t) || any (revokes name key) (lines_loop [] t)

  abbrev pub vouches : Text → Key → File → Bool
  vouches name key (contents t) = any (records name key) (lines_loop [] t)
  vouches name key _ = false

  scan-objects :
      (t name : Text) (key : Key)
      → (is_some (scan k t name key).changed_at || is_some (scan k t name key).revoked_at)
        ≡ objects name key (contents t)
  scan-objects t name key = ground (
    arith,
    scan_lem t name key,
    first_line-some (contradicts name key) 0 (lines_loop [] t),
    first_line-some (revokes name key) 0 (lines_loop [] t),
  )

  scan-vouches :
      (t name : Text) (key : Key) → (scan k t name key).is_known ≡ vouches name key (contents t)
  scan-vouches t name key = ap (λ (v : FileVerdict). v.is_known) (scan_lem t name key)

  -- What the rest of the files makes of what has been found.
  Outcome : Bool → Option (Text × ℕ) → Bool → Bool → HostKeyStatus → Type 0
  Outcome b o against for s =
      ((s ≡ known) ↔ ((o ≡ none) × (against ≡ false) × ((b || for) ≡ true)))
      × ((s ≡ unknown) ↔ ((o ≡ none) × (against ≡ false) × ((b || for) ≡ false)))

  abbrev found_in : Text → Option ℕ → Option (Text × ℕ)
  found_in path none = none
  found_in path (some line) = some (path, line)

  abbrev or_revoked : Text → Option ℕ → HostKeyStatus → HostKeyStatus
  or_revoked path none s = s
  or_revoked path (some line) s = revoked path line

  contents-Outcome :
      (b kn : Bool) (o : Option (Text × ℕ)) (ch re : Option ℕ) (path : Text) (against for : Bool)
      (rest : HostKeyStatus)
      → Outcome (b || kn) (or_else o (found_in path ch)) against for rest
      → Outcome b o ((is_some ch || is_some re) || against) (kn || for) (or_revoked path re rest)
  unfolding Outcome
  contents-Outcome b kn o ch none path against for rest h = ground arith
  contents-Outcome b kn o ch (some line) path against for rest h = ground arith

  check_files-cons :
      (b : Bool) (o : Option (Text × ℕ)) (path t : Text) (fs : List (Text × File)) (name : Text)
      (key : Key)
      → let v : FileVerdict = scan k t name key in
        check_files k b o ((path, contents t) ∷ fs) name key
        ≡ or_revoked path v.revoked_at
            (check_files k (b || v.is_known) (or_else o (found_in path v.changed_at)) fs name key)
  unfolding check_files
  check_files-cons b o path t fs name key = ground arith

  check_files-missing :
      (b : Bool) (o : Option (Text × ℕ)) (path : Text) (fs : List (Text × File)) (name : Text)
      (key : Key)
      → check_files k b o ((path, missing) ∷ fs) name key ≡ check_files k b o fs name key
  unfolding check_files
  check_files-missing b o path fs name key = refl

  check_files_lem :
      (b : Bool) (o : Option (Text × ℕ)) (fs : List (Text × File)) (name : Text) (key : Key)
      → Outcome b o
          (any (λ f. objects name key f.1) fs)
          (any (λ f. vouches name key f.1) fs)
          (check_files k b o fs name key)
  check_files_lem b o [] name key = unfold check_files Outcome in ground arith
  check_files_lem b o ((path, missing) ∷ fs) name key =
      rw (check_files-missing b o path fs name key) (check_files_lem b o fs name key)
  check_files_lem b o ((path, failing e) ∷ fs) name key = unfold check_files Outcome in ground arith
  check_files_lem b o ((path, contents t) ∷ fs) name key =
      let v : FileVerdict = scan k t name key in
      rw
        (
          check_files-cons b o path t fs name key,
          ← scan-objects t name key,
          ← scan-vouches t name key,
        )
        (contents-Outcome b v.is_known o v.changed_at v.revoked_at path
          (any (λ f. objects name key f.1) fs) (any (λ f. vouches name key f.1) fs)
          (check_files k (b || v.is_known) (or_else o (found_in path v.changed_at)) fs name key)
          (check_files_lem (b || v.is_known) (or_else o (found_in path v.changed_at)) fs name key))

  -- A server's key is accepted as known exactly if some file records it for the host, no file records
  -- another key of its algorithm for the host, none revokes it, and no file that exists is
  -- unreadable; and it is unknown, which asks the user, exactly if the same holds but no file records
  -- it. In every other case it is refused.
  pub check_lem :
      (files : List (Text × File)) (host : Text) (port : ℕ) (key : Key)
      → let name : Text = host_name host port in
        let against : Bool = any (λ f. objects name key f.1) files in
        let for : Bool = any (λ f. vouches name key f.1) files in
        ((check k files host port key ≡ known) ↔ ((against ≡ false) × (for ≡ true)))
        × ((check k files host port key ≡ unknown) ↔ ((against ≡ false) × (for ≡ false)))
  unfolding check Outcome
  check_lem files host port key =
      let h = check_files_lem false none files (host_name host port) key in ground (arith, h)
