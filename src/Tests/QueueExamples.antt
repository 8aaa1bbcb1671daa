-- ===== src/Tests/QueueExamples.antt =====
-- The theorems on unique ids, their arrays and the call queue at concrete inputs.
use mathlib.Core.List.{foldl}
use mulle_objc_runtime.Prelude.{
  ℕ, ◌+◌, ◌-◌, ◌*◌, ◌%◌, ◌^◌, ◌<◌, ◌≡◌, ◌≢◌, refl, true, not, arith, none, some, List, [], ◌∷◌,
  ◌++◌, ◌==◌, ◌||◌,
}
use mulle_objc_runtime.Uniqueid.{rotate, from_string, is_sane, uniqueid_compare}
use mulle_objc_runtime.Uniqueid.Rotation.{from_string-is_sane, from_string-injective}
use mulle_objc_runtime.Uniqueidarray.{Uniqueidarray, search_id, by_adding_ids, find}
use mulle_objc_runtime.Uniqueidarray.Adding.{contains, search_id-by_adding_ids}
use mulle_objc_runtime.Uniqueidarray.Finding.{find-endless}
use mulle_objc_runtime.Method.{Method, methodid, method_compare}
use mulle_objc_runtime.Methodlist.{Methodlist, search_method, binary_search, get_count}
use mulle_objc_runtime.Search as Search
use mulle_objc_runtime.Methodlist as Methodlist
use mulle_objc_runtime.Callqueue.{Entry, Pointerarray, Appends, walk, done, Metaclass}
use mulle_objc_runtime.Callqueue.Order.{accepted_of, add_all, walk-add_all}
use mulle_objc_runtime.Callqueue.Load.{
  Loaded, load_all, AllLoadable, all_scheduled, all_load_calls, walk-load_all,
}
use mulle_objc_runtime.Tests.ListExamples.{
  sort_two, swapped-Sorts, twice_at_most, method, methodlist,
}

-- A hash that is as good as any here: the first character.
abbrev first_character : List ℕ → ℕ
first_character [] = 0
first_character (c ∷ s) = c % 2 ^ 32

in_range : (s : List ℕ) → first_character s < 2 ^ 32
in_range [] = omega arith
in_range (c ∷ s) = omega arith

from_string-is_sane_example :
    let id = (from_string first_character (some (0x61 ∷ []))).value in
    (id ≢ 0)
    × (id < 2 ^ 32)
    × (is_sane id
        ≡ not (first_character (0x61 ∷ []) == 0 || first_character (0x61 ∷ []) == 2 ^ 32 - 1))
from_string-is_sane_example = from_string-is_sane first_character in_range 0x61 []

from_string-injective_example : first_character (0x61 ∷ []) ≡ first_character (0x61 ∷ 0x62 ∷ [])
unfolding from_string is_sane rotate
from_string-injective_example =
    from_string-injective first_character in_range 0x61 0x61 [] (0x62 ∷ []) refl refl

abbrev nine : Uniqueidarray
nine = record { autosort = 1; entries = 9 ∷ [] }

search_id-by_adding_ids_example :
    search_id (by_adding_ids sort_two nine (3 ∷ []) true) 3
    ≡ some (contains 3 nine.entries || contains 3 (3 ∷ []))
unfolding uniqueid_compare
search_id-by_adding_ids_example =
    search_id-by_adding_ids sort_two nine (3 ∷ []) 3 (swapped-Sorts (λ id. id) 3 9 (omega arith))

find-endless_example : find 1000 (record { autosort = 0; entries = 9 ∷ 3 ∷ [] }) 3 ≡ none
find-endless_example = find-endless 1000 9 3 (3 ∷ []) 0 (omega arith)

abbrev lists : Pointerarray
lists = record { Array = List Entry; empty = []; push = λ a e. a ++ e ∷ []; enumerated = λ a. a }

lists-Appends : Appends lists
lists-Appends = record { starts = refl; appends = λ a e. refl }

-- The second call has no implementation.
abbrev calls : List Entry
calls =
    record { obj = 4096; uniqueid = 77; imp = 1 }
    ∷ record { obj = 4096; uniqueid = 78; imp = 0 }
    ∷ record { obj = 8192; uniqueid = 77; imp = 2 }
    ∷ []

walk-add_all_example :
    (walk lists (λ e n. n * 10 + e.imp) (add_all lists calls []) 0
      ≡ foldl (λ n e. n * 10 + e.imp) 0 (accepted_of calls))
    × (done lists (add_all lists calls []) ≡ accepted_of calls)
walk-add_all_example = walk-add_all lists lists-Appends (λ e n. n * 10 + e.imp) calls 0

abbrev load_method : Method
load_method = record {
  descriptor = record { methodid = 0x6075_9e9e; signature = 0x76 ∷ []; name = 0x6c ∷ []; bits = 0 };
  implementation = 5;
}

abbrev meta : Metaclass
meta = record { address = 4096; state = 0 }

abbrev other_method : Method
other_method = record load_method {
  descriptor = record load_method.descriptor { methodid = 0x7000_0000 };
}

-- Two lists: in the first, `+load` stands behind another method; the second has none.
abbrev loaded : List Loaded
loaded =
    record {
      classmethods = record { loadcategory = none; methods = other_method ∷ load_method ∷ [] };
      meta = meta;
    }
    ∷ record { classmethods = methodlist; meta = record { address = 8192; state = 1 } }
    ∷ []

loaded-AllLoadable : AllLoadable lists sort_two loaded
unfolding method_compare Methodlist.find Search.find
loaded-AllLoadable = (
  record {
    here = omega arith;
    once = λ id. twice_at_most 0x6075_9e9e 0x7000_0000 id (omega arith);
    sorts = swapped-Sorts methodid load_method other_method (omega arith);
    implemented = omega arith;
  },
  (
    record {
      here = omega arith;
      once = λ id. twice_at_most 3 9 id (omega arith);
      sorts = swapped-Sorts methodid (method 3) (method 9) (omega arith);
      implemented = tt;
    },
    tt,
  ),
)

walk-load_all_example :
    (loads : List Entry) × (load_all lists sort_two loaded [] ≡ some (all_scheduled loaded, loads))
    × (walk lists (λ e n. n * 10 + e.imp) loads 0
        ≡ foldl (λ n e. n * 10 + e.imp) 0 (all_load_calls loaded))
walk-load_all_example =
    walk-load_all lists lists-Appends sort_two (λ e n. n * 10 + e.imp) loaded 0 loaded-AllLoadable
