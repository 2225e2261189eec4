-- ===== src/Providers/Think/Tests.antt =====
-- The filter on concrete texts.
use openai_compatible_bridge.Prelude.{ℕ, false, List, [], ◌∷◌, some, ◌≡◌, refl, concat}
use openai_compatible_bridge.Prelude.Bytes.{codes}
use openai_compatible_bridge.Providers.Think.{
  shown, strip_think_blocks, visible, feed_all, feed, scan, find, matching_len, matching_len_from,
  finish,
}
use openai_compatible_bridge.Providers.Think.Feed.{shown-visible, shown-strip_think_blocks}

abbrev pieces : List (List ℕ)
pieces = codes "a<th" ∷ codes "ink>b</" ∷ codes "think>c<" ∷ []

shown-visible_example : shown pieces ≡ some (visible 0 false (concat pieces))
shown-visible_example = shown-visible pieces

shown-strip_think_blocks_example : shown pieces ≡ strip_think_blocks (concat pieces)
shown-strip_think_blocks_example = shown-strip_think_blocks pieces

across_tags : shown pieces ≡ some (codes "ac<")
unfolding shown feed_all feed scan find matching_len matching_len_from finish
across_tags = refl
