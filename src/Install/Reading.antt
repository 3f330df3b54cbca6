-- ===== src/Install/Reading.antt =====
-- crates/mai-probe/src/install.rs: reading a configuration file, and the file that a write replaces
-- (`read_doc`, `write_target`). The parser and what the file system tells are parameters.
use multi_ai.Base.{
  ℕ, zero, suc, ◌≡◌, refl, Option, none, some, [], Text, text, trim, ◌==◌, list_eq, nat_eq, arith,
  ◌≤◌, ap, sym, ◌∙◌, ok-injective, Result, ok, err, if◌then◌else◌,
}
use multi_ai.Install.{Json, object, end}

pub data Contents : Type 0 where
  found : Text → Contents
  not_found : Contents
  unreadable : Text → Contents

-- A missing file and a blank one are empty objects.
unfoldable pub read_doc : (Text → Result Json Text) → Contents → Result Json Text
unfolding trim
read_doc parse (found t) =
    let parsed : Result Json Text = parse t in if trim t == [] then ok (object end) else parsed
read_doc parse not_found = ok (object end)
read_doc parse (unreadable x) = err x

-- `MAX_LINKS`.
abbrev pub max_links : ℕ
max_links = 16

abbrev pub follow_link : Option Text → Text → (Text → Result Text Text) → Result Text Text
follow_link none target next = ok target
follow_link (some link) target next = next link

-- The loop of `write_target`; `link_of` is where a symbolic link leads, relative to its own directory.
unfoldable pub follow : (Text → Option Text) → ℕ → Text → Result Text Text
follow link_of zero target = err (text "too many levels of symbolic links")
follow link_of (suc n) target = follow_link (link_of target) target (λ link. follow link_of n link)

unfoldable pub write_target : (Text → Option Text) → Text → Result Text Text
unfolding follow
write_target link_of path = follow link_of max_links path

-- The file after `n` links.
abbrev pub Leads : (Text → Option Text) → ℕ → Text → Text → Type 0
Leads link_of zero path target = path ≡ target
Leads link_of (suc n) path target =
    (next : Text) × ((link_of path ≡ some next) × Leads link_of n next target)

-- A path leads over at most `n` links to a file that is no link.
abbrev pub Reaches : (Text → Option Text) → ℕ → Text → Text → Type 0
Reaches link_of n path target =
    (k : ℕ) × ((k ≤ n) × (Leads link_of k path target × (link_of target ≡ none)))

follow_link-Reaches :
    (link_of : Text → Option Text) (n : ℕ) (o : Option Text) (path target : Text)
    (next : Text → Result Text Text)
    → link_of path ≡ o
    → ((link : Text) → next link ≡ ok target → Reaches link_of n link target)
    → follow_link o path next ≡ ok target
    → Reaches link_of (suc n) path target
follow_link-Reaches link_of n none path target next e r h =
    let q : path ≡ target = ok-injective h in (zero, (omega arith, (q, ap link_of (sym q) ∙ e)))
follow_link-Reaches link_of n (some link) path target next e r h =
    let (k, (b, (l, f))) = r link h in (suc k, (omega (arith, b), ((link, (e, l)), f)))

follow-Reaches :
    (link_of : Text → Option Text) (n : ℕ) (path target : Text)
    → follow link_of n path ≡ ok target
    → Reaches link_of n path target
unfolding follow
follow-Reaches link_of zero path target h = cc
follow-Reaches link_of (suc n) path target h =
    follow_link-Reaches link_of n (link_of path) path target (λ link. follow link_of n link) refl
      (λ link q. follow-Reaches link_of n link target q) h

-- What a write replaces is the end of the links from the configured path, at most sixteen of them, so that
-- every link survives.
pub write_target-Reaches :
    (link_of : Text → Option Text) (path target : Text)
    → write_target link_of path ≡ ok target
    → Reaches link_of max_links path target
unfolding write_target
write_target-Reaches link_of path target h = follow-Reaches link_of max_links path target h
