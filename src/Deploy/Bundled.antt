-- ===== src/Deploy/Bundled.antt =====
-- crates/mai-core/src/deploy.rs: the bundled binary for a host has the name that the probe has there
-- (`ProbeStore::binary`).
use multi_ai.Base.{
  ◌≡◌, refl, subst, Option, some, Text, text, contains, starts_with, ◌==◌, list_eq, nat_eq,
  if_cases,
}
use multi_ai.Deploy.{Os, linux, mac_os, windows, Remote, by_arch, target_for, target, exe_name}
use multi_ai.Deploy.Whole.{Store, binary}

abbrev pub bundled : Store → Text → Os → Text
bundled store t os = store.join (store.join store.dir t) (exe_name os)

-- A fact about a target holds if it holds for the target of each architecture.
by_arch_lem :
    (P : Text → Type 0) (arch : Text) (x86 arm : Option Text) (t : Text)
    → ((u : Text) → x86 ≡ some u → P u)
    → ((u : Text) → arm ≡ some u → P u)
    → by_arch arch x86 arm ≡ some t
    → P t
by_arch_lem P arch x86 arm t f g =
    if_cases {A = Option Text} (λ o. o ≡ some t → P t) (arch == text "x86_64") (λ _. f t)
      (λ _.
        if_cases {A = Option Text} (λ o. o ≡ some t → P t) (arch == text "aarch64") (λ _. g t)
          (λ _ k. cc))

known : (P : Text → Type 0) (s : Text) → P s → (u : Text) → some s ≡ some u → P u
known P s p u q = let e : s ≡ u = cc q in subst P e p

binary_at :
    (store : Store) (os : Os) (arch t : Text)
    → target_for os arch ≡ some t
    → binary store t ≡ bundled store t os
unfolding target_for binary contains starts_with exe_name
binary_at store linux arch t =
    let P : Text → Type 0 = λ u. binary store u ≡ bundled store u linux in
    by_arch_lem P arch _ _ t (known P (text "x86_64-unknown-linux-musl") refl)
      (known P (text "aarch64-unknown-linux-musl") refl)
binary_at store mac_os arch t =
    let P : Text → Type 0 = λ u. binary store u ≡ bundled store u mac_os in
    by_arch_lem P arch _ _ t (known P (text "x86_64-apple-darwin") refl)
      (known P (text "aarch64-apple-darwin") refl)
binary_at store windows arch t =
    let P : Text → Type 0 = λ u. binary store u ≡ bundled store u windows in
    by_arch_lem P arch _ _ t (known P (text "x86_64-pc-windows-msvc") refl) (λ u q. cc)

pub binary-bundled :
    (store : Store) (r : Remote) (t : Text)
    → target r ≡ some t
    → binary store t ≡ bundled store t r.os
binary-bundled store r t = binary_at store r.os r.arch t
