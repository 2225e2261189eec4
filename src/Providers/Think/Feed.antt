-- ===== src/Providers/Think/Feed.antt =====
-- `feed` and `finish`: a text that arrives in pieces is shown as if it came at once.
use openai_compatible_bridge.Prelude.{
  ℕ, zero, suc, ◌<◌, Bool, true, false, Option, none, some, List, [], ◌∷◌, ◌++◌, if◌then◌else◌,
  length, concat, ◌≡◌, refl, sym, ap, ◌∙◌, arith, by_option,
}
use openai_compatible_bridge.Prelude.Maybe.{◌>>=◌}
use openai_compatible_bridge.Providers.Think.{
  find, start_tag, end_tag, Stripper, new, Step, shown_too, scan, feed, finish, feed_all, shown,
  strip_think_blocks, visible,
}
use openai_compatible_bridge.Providers.Think.Find.{Shorter, find-Shorter}
use openai_compatible_bridge.Providers.Think.Scan.{
  kept-inside, kept-outside, kept-none, none-inside, none-outside, find-Closed, find-Opened,
}
use mathlib.Core.List.{append_assoc, append-nil}

abbrev awaited : Bool → List ℕ
awaited inside = if inside then end_tag else start_tag

-- What is kept back holds no tag that the filter waits for.
abbrev pub IsQuiet : Stripper → Type 0
IsQuiet stripper = find (awaited stripper.inside_think) stripper.pending ≡ none

-- A step has a result; it shows what the description shows of the text, up to what it keeps back,
-- whatever comes next.
abbrev Follows : Bool → List ℕ → Option Step → Type 0
Follows inside text none = ⊥
Follows inside text (some out) =
    IsQuiet out.1
    × ((more : List ℕ)
        → visible 0 inside (text ++ more)
          ≡ out.0 ++ visible 0 out.1.inside_think (out.1.pending ++ more))

Follows-shown_too :
    (before text behind : List ℕ) (out : Option Step)
    → ((more : List ℕ) → visible 0 false (text ++ more) ≡ before ++ visible 0 true (behind ++ more))
    → Follows true behind out
    → Follows false text (shown_too before out)
Follows-shown_too before text behind none h f = f
Follows-shown_too before text behind (some out) h f =
    (f.0, λ more. h more ∙ ap (λ rest. before ++ rest) (f.1 more) ∙ sym (append_assoc before _ _))

Follows-closed :
    (text behind : List ℕ) (out : Option Step)
    → ((more : List ℕ) → visible 0 true (text ++ more) ≡ visible 0 false (behind ++ more))
    → Follows false behind out
    → Follows true text out
Follows-closed text behind none h f = f
Follows-closed text behind (some out) h f = (f.0, λ more. h more ∙ f.1 more)

behind_fits :
    (fuel : ℕ) (token text : List ℕ) (parts : List ℕ × List ℕ)
    → 0 < length token
    → length text < suc fuel
    → find token text ≡ some parts
    → length parts.1 < fuel
behind_fits fuel token text parts t h e =
    let shorter : Shorter (length text) (some parts) = rw e at (find-Shorter token text t) in
    omega (arith, shorter, h)

scan-Follows :
    (fuel : ℕ) (inside : Bool) (text : List ℕ)
    → length text < fuel
    → Follows inside text (scan fuel inside text)
unfolding scan find
scan-Follows zero inside text h = absurd (omega (arith, h))
scan-Follows (suc fuel) true [] h = (refl, λ more. refl)
scan-Follows (suc fuel) false [] h = (refl, λ more. refl)
scan-Follows (suc fuel) true (c ∷ text) h =
    by_option (Follows true (c ∷ text)) (find end_tag (c ∷ text))
      (λ f. (kept-none end_tag (c ∷ text) f, λ more. kept-inside (c ∷ text) more f))
      (λ parts e.
        Follows-closed (c ∷ text) parts.1 (scan fuel false parts.1)
          (λ more. rw e at (find-Closed (c ∷ text) more))
          (scan-Follows fuel false parts.1
            (behind_fits fuel end_tag (c ∷ text) parts (omega arith) h e)))
scan-Follows (suc fuel) false (c ∷ text) h =
    by_option (Follows false (c ∷ text)) (find start_tag (c ∷ text))
      (λ f. (kept-none start_tag (c ∷ text) f, λ more. kept-outside (c ∷ text) more f))
      (λ parts e.
        Follows-shown_too parts.0 (c ∷ text) parts.1 (scan fuel true parts.1)
          (λ more. rw e at (find-Opened (c ∷ text) more))
          (scan-Follows fuel true parts.1
            (behind_fits fuel start_tag (c ∷ text) parts (omega arith) h e)))

abbrev Fed : Stripper → List ℕ → Option Step → Type 0
Fed stripper piece none = ⊥
Fed stripper piece (some out) =
    IsQuiet out.1
    × ((more : List ℕ)
        → visible 0 stripper.inside_think (stripper.pending ++ (piece ++ more))
          ≡ out.0 ++ visible 0 out.1.inside_think (out.1.pending ++ more))

Fed-Follows :
    (stripper : Stripper) (piece : List ℕ) (out : Option Step)
    → Follows stripper.inside_think (stripper.pending ++ piece) out
    → Fed stripper piece out
Fed-Follows stripper piece none f = f
Fed-Follows stripper piece (some out) f = (
  f.0,
  λ more.
      ap (visible 0 stripper.inside_think) (sym (append_assoc stripper.pending piece more))
      ∙ f.1 more,
)

feed-Fed :
    (stripper : Stripper) (piece : List ℕ)
    → IsQuiet stripper
    → Fed stripper piece (feed stripper piece)
unfolding feed
feed-Fed stripper [] q = (q, λ more. refl)
feed-Fed stripper (c ∷ piece) q =
    let text = stripper.pending ++ c ∷ piece in
    Fed-Follows stripper (c ∷ piece) (scan (suc (length text)) stripper.inside_think text)
      (scan-Follows (suc (length text)) stripper.inside_think text (omega arith))

Fed-shown_too :
    (stripper between : Stripper) (before piece pieces : List ℕ) (out : Option Step)
    → ((more : List ℕ)
        → visible 0 stripper.inside_think (stripper.pending ++ (piece ++ more))
          ≡ before ++ visible 0 between.inside_think (between.pending ++ more))
    → Fed between pieces out
    → Fed stripper (piece ++ pieces) (shown_too before out)
Fed-shown_too stripper between before piece pieces none h f = f
Fed-shown_too stripper between before piece pieces (some out) h f = (
  f.0,
  λ more.
      ap (λ rest. visible 0 stripper.inside_think (stripper.pending ++ rest))
        (append_assoc piece pieces more)
      ∙ h (pieces ++ more)
      ∙ ap (λ rest. before ++ rest) (f.1 more)
      ∙ sym (append_assoc before _ _),
)

Fed-next :
    (stripper : Stripper) (piece : List ℕ) (pieces : List (List ℕ)) (out : Option Step)
    → Fed stripper piece out
    → ((next : Stripper) → IsQuiet next → Fed next (concat pieces) (feed_all next pieces))
    → Fed stripper
        (concat (piece ∷ pieces))
        (out >>= λ fed. shown_too fed.0 (feed_all fed.1 pieces))
Fed-next stripper piece pieces none f rest = f
Fed-next stripper piece pieces (some out) f rest =
    Fed-shown_too stripper out.1 out.0 piece (concat pieces) (feed_all out.1 pieces) f.1
      (rest out.1 f.0)

feed_all-Fed :
    (stripper : Stripper) (pieces : List (List ℕ))
    → IsQuiet stripper
    → Fed stripper (concat pieces) (feed_all stripper pieces)
unfolding feed_all
feed_all-Fed stripper [] q = (q, λ more. refl)
feed_all-Fed stripper (piece ∷ pieces) q =
    Fed-next stripper piece pieces (feed stripper piece) (feed-Fed stripper piece q)
      (λ next. feed_all-Fed next pieces)

finish-left :
    (inside : Bool) (text : List ℕ)
    → find (awaited inside) text ≡ none
    → visible 0 inside text ≡ (finish (record { inside_think = inside; pending = text })).0
unfolding finish
finish-left true text q = none-inside text q
finish-left false text q = none-outside text q

finish-visible :
    (stripper : Stripper)
    → IsQuiet stripper
    → visible 0 stripper.inside_think (stripper.pending ++ []) ≡ (finish stripper).0
unfolding finish
finish-visible stripper q =
    ap (visible 0 stripper.inside_think) (append-nil stripper.pending)
    ∙ finish-left stripper.inside_think stripper.pending q

shows : Option Step → Option (List ℕ)
shows fed = fed >>= λ out. some (out.0 ++ (finish out.1).0)

shows-visible :
    (text : List ℕ) (fed : Option Step) → Fed new text fed → shows fed ≡ some (visible 0 false text)
unfolding shows
shows-visible text none f = absurd f
shows-visible text (some out) f = ap some (
    ap (λ left. out.0 ++ left) (sym (finish-visible out.1 f.0))
    ∙ sym (f.1 [])
    ∙ ap (visible 0 false) (append-nil text))

new-IsQuiet : IsQuiet new
unfolding find
new-IsQuiet = refl

-- Whatever pieces a text is cut into, the filter ends, and shows exactly what one pass over the
-- whole text shows: all that stands outside of the blocks, an unfinished tag included.
pub shown-visible : (pieces : List (List ℕ)) → shown pieces ≡ some (visible 0 false (concat pieces))
unfolding shown shows
shown-visible pieces =
    shows-visible (concat pieces) (feed_all new pieces) (feed_all-Fed new pieces new-IsQuiet)

pub strip_think_blocks-visible :
    (text : List ℕ) → strip_think_blocks text ≡ some (visible 0 false text)
unfolding strip_think_blocks shows
strip_think_blocks-visible text = shows-visible text (feed new text) (feed-Fed new text new-IsQuiet)

-- A text that arrives in pieces, cut anywhere, inside of a tag too, is shown as
-- `_strip_think_blocks` shows the whole of it.
pub shown-strip_think_blocks :
    (pieces : List (List ℕ)) → shown pieces ≡ strip_think_blocks (concat pieces)
shown-strip_think_blocks pieces =
    shown-visible pieces ∙ sym (strip_think_blocks-visible (concat pieces))
