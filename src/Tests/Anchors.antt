-- ===== src/Tests/Anchors.antt =====
-- tools/compare_anchor_contract.py on the anchors of two machines.
use hpl_spec.Base.{◌≡◌, refl, true, Bool, [], ◌∷◌, String, pos, ◌==◌, string_eq}
use hpl_spec.Base.Json.{Json, str, int, bool, Fields, dict, get}
use hpl_spec.Base.Json.Print.{to_text}
use hpl_spec.Anchors.Compare.{compare_anchors, git_commit_matches, same}
use hpl_spec.Anchors.Compare.Leaves.{IsSameContract, Tells, compare_anchors-Tells}

abbrev manifest : String → Fields
manifest root = dict (("git_commit", str "abcdef1") ∷ ("merkle_root", str root) ∷ [])

abbrev leaf : String → Fields
leaf hash = dict (("path", str "a.txt") ∷ ("leaf_hash", str hash) ∷ [])

-- `==` of a float and a number: of the texts that these numbers are written as.
abbrev floats : Json → Json → Bool
floats a b = to_text a == to_text b

short_commit : git_commit_matches floats (str "sha:ABCDEF1") (str "abcdef1234") ≡ true
unfolding git_commit_matches
short_commit = refl

one_is_true : same floats (int (pos 1)) (bool true) ≡ true
unfolding same
one_is_true = refl

compare_anchors-Tells_example :
    Tells floats
      (IsSameContract floats (manifest "1") (manifest "2"))
      (same floats (get "merkle_root" (manifest "1")) (get "merkle_root" (manifest "2")))
      (leaf "x" ∷ leaf "y" ∷ [])
      (leaf "x" ∷ leaf "z" ∷ [])
      (compare_anchors floats
        (manifest "1")
        (manifest "2")
        (leaf "x" ∷ leaf "y" ∷ [])
        (leaf "x" ∷ leaf "z" ∷ []))
compare_anchors-Tells_example =
    compare_anchors-Tells floats (manifest "1") (manifest "2") (leaf "x" ∷ leaf "y" ∷ [])
      (leaf "x" ∷ leaf "z" ∷ [])
