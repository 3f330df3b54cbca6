-- ===== src/SshConfig/Resolve.antt =====
-- crates/mai-core/src/ssh/config.rs: resolving a target with its jump hosts (`resolve`, `jump_warnings`).
use multi_ai.Base.{
  ℕ, Bool, ◌&&◌, not, Option, none, some, List, [], ◌∷◌, ◌++◌, map, filter, Text, text, trim,
  lowercase, split_char, ◌==◌, list_eq, nat_eq, Result, ok, err, ◌>>=◌,
}
use multi_ai.SshConfig.{Target, split_target, cons_found, without_match_blocks}

-- The parameters that ssh2_config finds for a host.
pub record Params : Type 0 where
  pub host_name : Option Text
  pub port : Option ℕ
  pub user : Option Text
  pub identity_file : Option (List Text)
  pub proxy_jump : Option (List Text)

-- One host of a `HostSpec`; the jump hosts of a jump host are always empty.
pub record Hop : Type 0 where
  pub alias : Text
  pub host : Text
  pub port : ℕ
  pub user : Text
  pub identity_files : List Text

pub record HostSpec : Type 0 where
  pub hop : Hop
  pub jumps : List Hop

abbrev pub or_default {ℓ} : {A : Type ℓ} → Option A → A → A
or_default none d = d
or_default (some a) d = a

abbrev pub or_port : Option ℕ → Option ℕ → Option ℕ
or_port none o = o
or_port (some p) o = some p

abbrev pub or_user : Option Text → Option Text → Option Text
or_user none o = o
or_user (some u) o = some u

abbrev pub join_texts : Text → List Text → Text
join_texts sep [] = []
join_texts sep (t ∷ []) = t
join_texts sep (t ∷ u ∷ ts) = t ++ (sep ++ join_texts sep (u ∷ ts))

abbrev pub append_all : List (List Text) → List Text
append_all [] = []
append_all (ts ∷ tss) = ts ++ append_all tss

abbrev pub collect {ℓ} : {A : Type ℓ} → List (Result A Text) → Result (List A) Text
collect [] = ok []
collect (err e ∷ rs) = err e
collect (ok a ∷ rs) = collect rs >>= λ more. ok (a ∷ more)

module _ {Config : Type 0} (query : Config → Text → Params) (join : Text → Text → Text) where
  abbrev pub default_keys : Text → List Text
  default_keys home =
      map (λ k. join (join home (text ".ssh")) k)
        (text "id_ed25519" ∷ text "id_ecdsa" ∷ text "id_rsa" ∷ [])

  abbrev pub hop_of : Text → Text → Text → Target → Params → Hop
  hop_of t default_user home at p = record {
    alias = t;
    host = or_default p.host_name at.host;
    port = or_default (or_port at.port p.port) 22;
    user = or_default (or_user at.user p.user) default_user;
    identity_files = or_default p.identity_file (default_keys home);
  }

  unfoldable pub resolve_hop : Config → Text → Text → Text → Result Hop Text
  unfolding split_target
  resolve_hop cfg t default_user home =
      split_target t >>= λ at. ok (hop_of t default_user home at (query cfg at.host))

  abbrev pub is_jump : Text → Bool
  is_jump j = not (j == []) && not (lowercase j == text "none")

  unfoldable pub jumps_of : Config → Text → Result (List Text) Text
  unfolding split_target split_char trim lowercase
  jumps_of cfg t = split_target t >>= λ at. ok (
      filter is_jump (
        map trim (append_all (map (split_char 44) (or_default (query cfg at.host).proxy_jump [])))))

  unfoldable pub resolve : Config → Text → Text → Text → Result HostSpec Text
  unfolding resolve_hop jumps_of
  resolve cfg t default_user home = resolve_hop cfg t default_user home >>= λ h.
      jumps_of cfg t >>= λ js.
      collect (map (λ j. resolve_hop cfg j default_user home) js) >>= λ hops.
      ok (record { hop = h; jumps = hops })

  abbrev pub jump_warning : Text → Result (List Text) Text → Option Text
  jump_warning alias (err e) = none
  jump_warning alias (ok []) = none
  jump_warning alias (ok (j ∷ js)) = some (
      text "ssh config: ProxyJump "
      ++ (join_texts (text ",") (j ∷ js)
          ++ (text " of jump host " ++ (alias ++ text " is not followed"))))

  abbrev pub warnings_of : Config → List Hop → List Text
  warnings_of cfg [] = []
  warnings_of cfg (h ∷ hs) =
      cons_found (jump_warning h.alias (jumps_of cfg h.alias)) (warnings_of cfg hs)

  unfoldable pub jump_warnings : Config → HostSpec → List Text
  unfolding jumps_of
  jump_warnings cfg spec = warnings_of cfg spec.jumps

-- `parse` is the parser of ssh2_config.
abbrev pub config_error {ℓ} : {A : Type ℓ} → Result A Text → Result A Text
config_error (ok a) = ok a
config_error (err e) = err (text "ssh config: " ++ e)

unfoldable pub parse_config {ℓ} :
    {Config : Type ℓ} → (Text → Result Config Text) → Text → Result Config Text
unfolding without_match_blocks
parse_config parse t = config_error (parse (without_match_blocks t))
