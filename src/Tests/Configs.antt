-- ===== src/Tests/Configs.antt =====
-- The theorems on the configuration file, at the examples.
use network_etc.Base.{
  ℕ, ◌≡◌, ◌↔◌, refl, true, some, [], ◌∷◌, Bool, List, Bytes, length, get_or, codes, arith,
}
use network_etc.Config.Token.{in_word}
use network_etc.Config.Var.{ConfigVar, new}
use network_etc.Config.File.{init, get_var, get_list_num, get_list_value}
use network_etc.Config.File.Lines.{Entry, IsEntry, print_file}
use network_etc.Config.File.Lookup.{FirstMatch, get_var_iff, init-get_list_value}
use network_etc.Config.File.Quotes.{init-NoQuote}
use network_etc.Tests.Cell.{zeros}

abbrev node_id : Entry
node_id = (codes "n", codes "0" ∷ [])

abbrev addresses : List Bytes
addresses = codes "x:1" ∷ codes "y" ∷ []

node_id-IsEntry : IsEntry node_id
unfolding in_word
node_id-IsEntry = ((omega arith, refl, tt), omega arith, omega arith)

addresses-IsEntry : IsEntry (codes "a", addresses)
unfolding in_word
addresses-IsEntry = ((omega arith, refl, tt), omega arith, omega arith)

init-get_list_value_example :
    (vars : List ConfigVar) × (init
        (some (print_file (node_id ∷ (codes "a", addresses) ∷ [])))
        (zeros 1024)
        []
      ≡ some (vars, true))
    × (get_list_num vars (codes "a") ≡ length addresses)
    × ((i : ℕ) (d : Bytes) → get_list_value vars (codes "a") i d ≡ get_or addresses i d)
init-get_list_value_example =
    init-get_list_value (node_id ∷ []) [] (codes "a") addresses (zeros 1024)
      (node_id-IsEntry, (addresses-IsEntry, tt)) (λ (rest, e). ground (arith, e), tt) (omega arith)

init-NoQuote_example :
    (loaded : List ConfigVar) × (ok : Bool) × (init (some (codes "a = 1 # one")) (zeros 1024) []
      ≡ some (loaded, ok))
init-NoQuote_example = init-NoQuote (codes "a = 1 # one") (zeros 1024) [] (omega arith)

get_var_iff_example :
    (get_var (new (codes "a") ∷ []) (codes "ab") ≡ some (new (codes "a")))
    ↔ FirstMatch (new (codes "a") ∷ []) (codes "ab") (new (codes "a"))
get_var_iff_example = get_var_iff (new (codes "a") ∷ []) (codes "ab") (new (codes "a"))
