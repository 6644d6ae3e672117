-- ===== src/Hooks/Filters.antt =====
-- obnamlib/hooks.py: `FilterHook`. A written text carries the tags of the filters that changed it,
-- the last one first, each before a zero byte; an empty tag ends them.
use obnam.Prelude.{ℕ, zero, suc, Bool, true, false, Option, none, some, List, [], ◌∷◌, ◌++◌}
use obnam.Prelude.Tests.{if◌then◌else◌}
use obnam.Prelude.Keys.{◌==◌, nat_eq, list_eq}
use obnam.Prelude.Dict.{Dict, get}
use obnam.Prelude.Result.{Result, ok, raise}
use obnam.Bag.ObjectId.{Text, split_once}

pub data Error : Type 0 where
  no_filter_tag : Error
  missing_filter : Text → Error
  assertion_error out_of_fuel : Error

-- A callback of a filter hook. `filter_write` may return `None`, which is an error.
pub record Filter : Type 0 where
  pub tag : Text
  pub filter_read : Text → Text
  pub filter_write : Text → Option Text

-- One call of `filter_next_tag`: whether there may be more tags, and the text that is left.
unfoldable pub filter_next_tag : Dict Text Filter → Text → Result Error (Bool × Text)
filter_next_tag bytag text = elim (split_once 0 text) [
  | none ↦ raise no_filter_tag
  | some (tag, remaining) ↦ elim tag [
    | [] ↦ ok (false, remaining)
    | c ∷ cs ↦ elim (get (c ∷ cs) bytag) [
      | none ↦ raise (missing_filter (c ∷ cs))
      | some f ↦ ok (true, f.filter_read remaining)
    ]
  ]
]

-- one round of the loop: go on with the text that is left, or return it
unfoldable pub next_round :
    (Text → Result Error Text) → Result Error (Bool × Text) → Result Error Text
next_round more (raise e) = raise e
next_round more (ok (true, text)) = more text
next_round more (ok (false, text)) = ok text

-- The loop of `run_filter_read`, with fuel for the number of tags.
unfoldable pub run_filter_read : ℕ → Dict Text Filter → Text → Result Error Text
run_filter_read zero bytag text = raise out_of_fuel
run_filter_read (suc fuel) bytag text =
    next_round (λ rest. run_filter_read fuel bytag rest) (filter_next_tag bytag text)

-- the loop of `run_filter_write` over the callbacks
unfoldable pub write_filters : List Filter → Text → Result Error Text
write_filters [] text = ok text
write_filters (filt ∷ rest) text = elim (filt.filter_write text) [
  | none ↦ raise assertion_error
  | some new_text ↦ write_filters rest (if text == new_text then text else filt.tag ++ 0 ∷ new_text)
]

unfoldable pub run_filter_write : List Filter → Text → Result Error Text
unfolding write_filters
run_filter_write callbacks text = write_filters callbacks (0 ∷ text)
