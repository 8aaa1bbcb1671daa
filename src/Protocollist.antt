-- ===== src/Protocollist.antt =====
-- Protocols and their lists (src/mulle-objc-protocol.c and src/mulle-objc-protocollist.c, .h).
pub mod Laws
use mulle_objc_runtime.Prelude.{ℕ, ◌+◌, Option, none, some, List, length, leb, ◌==◌, if◌then◌else◌}
use mulle_objc_runtime.Search.{Sign, compare_ids, bsearch}
use mulle_objc_runtime.Search as Search

pub record Protocol : Type 0 where
  pub protocolid : ℕ
  pub name : List ℕ

-- `n_protocols` is the length.
pub record Protocollist : Type 0 where
  pub protocols : List Protocol

abbrev pub protocolid : Protocol → ℕ
protocolid p = p.protocolid

-- _mulle_objc_protocol_bsearch
unfoldable pub protocol_bsearch : List Protocol → ℕ → ℕ → Option (Option Protocol)
protocol_bsearch buf n sought = bsearch protocolid buf n sought

-- _mulle_objc_protocol_compare
unfoldable pub protocol_compare : Protocol → Protocol → Sign
protocol_compare a b = compare_ids (protocolid a) (protocolid b)

-- mulle_objc_protocol_sort, with mulle_qsort
unfoldable pub protocol_sort :
    ((Protocol → Protocol → Sign) → List Protocol → List Protocol) → List Protocol → List Protocol
protocol_sort qsort protocols = qsort protocol_compare protocols

-- _mulle_objc_protocollist_find
unfoldable pub find : Protocollist → ℕ → Option Protocol
find list id = Search.find (λ p. protocolid p == id) list.protocols

-- _mulle_objc_protocollist_search and _mulle_objc_protocollist_search_smart
unfoldable pub search_smart : Protocollist → ℕ → Option (Option Protocol)
search_smart list id =
    if leb 14 (length list.protocols)
    then protocol_bsearch list.protocols (length list.protocols) id
    else some (find list id)

-- mulle_objc_protocollist_sort; NULL is left alone.
unfoldable pub sort :
    ((Protocol → Protocol → Sign) → List Protocol → List Protocol)
    → Option Protocollist
    → Option Protocollist
sort qsort none = none
sort qsort (some list) = some (record { protocols = protocol_sort qsort list.protocols })

-- _mulle_objc_protocollist_walk
unfoldable pub walk {ℓ} : {S : Type ℓ} → (Protocol → S → S × ℕ) → Protocollist → S → S × ℕ
walk f list s = Search.walk f list.protocols s
