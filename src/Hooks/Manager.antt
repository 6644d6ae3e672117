-- ===== src/Hooks/Manager.antt =====
-- obnamlib/hooks.py: the callbacks of a `FilterHook`, registered under their tags, and `HookManager`. A
-- callback is an identifier, and a parameter gives the filter that it stands for. Names of hooks
-- and of filters are keys of two dicts.
use obnam.Prelude.{ℕ, ◌≡◌, true, Option, none, some, [], map}
use obnam.Prelude.Tests.{if◌then◌else◌}
use obnam.Prelude.Keys.{Eq, ◌==◌, nat_eq, list_eq, contains}
use obnam.Prelude.Dict.{Dict, get, put, del, has, get-put}
use obnam.Prelude.Result.{Result}
use obnam.Bag.ObjectId.{Text}
use obnam.Hooks.Hook
use obnam.Hooks.Hook.{Hook, add_callback_lem, InOrder, priority_of}
use obnam.Hooks.Filters
use obnam.Hooks.Filters.{Filter}

pub record FilterHook (C : Type 0) : Type 0 where
  pub hook : Hook C
  pub bytag : Dict Text C

pub record HookManager (C : Type 0) : Type 0 where
  pub hooks : Dict Text (Hook C)
  pub filters : Dict Text (FilterHook C)

module _ {C : Type 0} ⦃e : Eq C⦄ (filter_of : C → Filter) where
  abbrev pub empty_filter_hook : FilterHook C
  empty_filter_hook = record { hook = Hook.empty; bytag = [] }

  abbrev pub tag_of : C → Text
  tag_of c = (filter_of c).tag

  unfoldable pub add_filter : FilterHook C → C → ℕ → FilterHook C
  add_filter fh c priority = record {
    hook = Hook.add_callback fh.hook c priority;
    bytag = put (tag_of c) c fh.bytag;
  }

  -- `none` is the `KeyError` of a tag that is not there
  unfoldable pub remove_filter : FilterHook C → C → Option (FilterHook C)
  remove_filter fh c =
      if has (tag_of c) fh.bytag
      then some (record { hook = Hook.remove_callback fh.hook c; bytag = del (tag_of c) fh.bytag })
      else none

  abbrev pub filters_of : Dict Text C → Dict Text Filter
  filters_of = map (λ r. (r.0, filter_of r.1))

  -- `new` and `new_filter`
  unfoldable pub new : HookManager C → Text → HookManager C
  new m name = if has name m.hooks then m else record m { hooks = put name Hook.empty m.hooks }

  unfoldable pub new_filter : HookManager C → Text → HookManager C
  new_filter m name =
      if has name m.filters then m else record m { filters = put name empty_filter_hook m.filters }

  -- A name without a hook is a filter's; `none` is the `KeyError` if it is neither.
  unfoldable pub add_named : HookManager C → Text → C → ℕ → Option (HookManager C)
  unfolding add_filter
  add_named m name c priority = elim (get name m.hooks) [
    | some h ↦ some (record m { hooks = put name (Hook.add_callback h c priority) m.hooks })
    | none ↦ elim (get name m.filters) [
      | none ↦ none
      | some fh ↦ some (record m { filters = put name (add_filter fh c priority) m.filters })
    ]
  ]

  unfoldable pub remove_named : HookManager C → Text → C → Option (HookManager C)
  unfolding remove_filter
  remove_named m name c = elim (get name m.hooks) [
    | some h ↦ some (record m { hooks = put name (Hook.remove_callback h c) m.hooks })
    | none ↦ elim (get name m.filters) [
      | none ↦ none
      | some fh ↦ elim (remove_filter fh c) [
        | none ↦ none
        | some fh' ↦ some (record m { filters = put name fh' m.filters })
      ]
    ]
  ]

  -- The fuel is the number of rounds; `none` is the `KeyError` of a name without a filter.
  unfoldable pub filter_read : ℕ → HookManager C → Text → Text → Option (Result Filters.Error Text)
  filter_read fuel m name text = elim (get name m.filters) [
    | none ↦ none
    | some fh ↦ some (Filters.run_filter_read fuel (filters_of fh.bytag) text)
  ]

  unfoldable pub filter_write : HookManager C → Text → Text → Option (Result Filters.Error Text)
  filter_write m name text = elim (get name m.filters) [
    | none ↦ none
    | some fh ↦ some (Filters.run_filter_write (map filter_of fh.hook.callbacks) text)
  ]

  -- A filter that is added is found under its tag, every other tag finds what it did, and it is
  -- among the callbacks, which are the others that there were.
  pub add_filter_lem :
      (fh : FilterHook C) (c : C) (p : ℕ)
      → InOrder (priority_of fh.hook.priorities) fh.hook.callbacks
      → ((t : Text)
          → get t (add_filter fh c p).bytag ≡ (if tag_of c == t then some c else get t fh.bytag))
        × InOrder
            (priority_of (add_filter fh c p).hook.priorities)
            (add_filter fh c p).hook.callbacks
        × ((a : C)
            → contains (add_filter fh c p).hook.callbacks a
              ≡ (if a == c then true else contains fh.hook.callbacks a))
  unfolding add_filter
  add_filter_lem fh c p o =
      let (ordered, there, _, _) = add_callback_lem fh.hook c p o in
      (λ t. get-put (tag_of c) t c fh.bytag, ordered, there)
