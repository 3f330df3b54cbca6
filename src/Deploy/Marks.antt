-- ===== src/Deploy/Marks.antt =====
-- crates/mai-core/src/deploy.rs: what a shell prints around the detection output is not taken for it
-- (`marked_lines`).
use mathlib.Core.List.{append-nil, append_assoc}
use multi_ai.Base.{
  ◌≡◌, ap, sym, ◌∙◌, false, some, List, [], ◌∷◌, ◌++◌, Text, ◌==◌, ==_refl, list_eq, nat_eq, All,
}
use multi_ai.Deploy.Detect.{begin_mark, end_mark, until_end, between_marks}

until_end_lem :
    (acc inner rest : List Text)
    → All (λ l. (l == end_mark) ≡ false) inner
    → until_end acc (inner ++ end_mark ∷ rest) ≡ some (acc ++ inner)
unfolding until_end
until_end_lem acc [] rest h = rw (==_refl end_mark) (ap some (sym (append-nil acc)))
until_end_lem acc (l ∷ inner) rest h =
    rw (h.0)
      (until_end_lem (acc ++ l ∷ []) inner rest h.1 ∙ ap some (append_assoc acc (l ∷ []) inner))

-- Whatever lines come before the begin mark and after the end mark, exactly the lines between them are read.
pub marks_delimit :
    (noise inner rest : List Text)
    → All (λ l. (l == begin_mark) ≡ false) noise
    → All (λ l. (l == end_mark) ≡ false) inner
    → between_marks (noise ++ begin_mark ∷ (inner ++ end_mark ∷ rest)) ≡ some inner
unfolding between_marks
marks_delimit [] inner rest n h = rw (==_refl begin_mark) (until_end_lem [] inner rest h)
marks_delimit (l ∷ noise) inner rest n h = rw (n.0) (marks_delimit noise inner rest n.1 h)
