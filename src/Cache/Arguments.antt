-- ===== src/Cache/Arguments.antt =====
-- HW2/cacheSim.cpp: what the loop over the options of `main` reads.
use Prim.Native.String.{String}
use computer_structures.Base.{
  ℕ, zero, suc, ◌+◌, ◌*◌, ◌≤◌, ◌≡◌, refl, arith, false, Option, none, some, List, ltb, length,
  get_elem?, get_elem?_lem, get_elem?-none, bind-some, ◌∙◌, subst,
}
use computer_structures.Cache.Ops.{Access}
use computer_structures.Cache.Program.{
  OptionName, Options, option_name, store_option, no_options, read_options, cache_main,
}

-- The argument at a place is the name of an option.
abbrev pub IsName : List String → ℕ → Type 0
IsName argv i =
    (s : String) × (name : OptionName) × (get_elem? argv i ≡ some s) × (option_name s ≡ some name)

module _ (atoi : String → ℕ) (read_line : String → Option Access) where
  read_options-step :
      (left i : ℕ) (argv : List String) (o : Options) (s value : String) (name : OptionName)
      → get_elem? argv i ≡ some s
      → option_name s ≡ some name
      → get_elem? argv (suc i) ≡ some value
      → read_options atoi read_line (suc left) i argv o
        ≡ read_options atoi read_line left (2 + i) argv (store_option name (atoi value) o)
  unfolding read_options
  read_options-step left i argv o s value name e known f =
      bind-some (get_elem? argv i) _ e (rw known (bind-some (get_elem? argv (suc i)) _ f refl))

  read_options-missing :
      (left i : ℕ) (argv : List String) (o : Options) (s : String) (name : OptionName)
      → get_elem? argv i ≡ some s
      → option_name s ≡ some name
      → length argv ≤ suc i
      → read_options atoi read_line (suc left) i argv o ≡ none
  unfolding read_options
  read_options-missing left i argv o s name e known past =
      bind-some (get_elem? argv i) _ e (rw known (rw (get_elem?-none argv (suc i) past)))

  IsName-at : (argv : List String) {i j : ℕ} → i ≡ j → IsName argv i → IsName argv j
  IsName-at argv e n = subst (IsName argv) e n

  -- The last of the values is missing.
  short :
      (left i : ℕ) (argv : List String) (o : Options)
      → length argv ≡ i + 2 * left + 1
      → ((j : ℕ) → j ≤ left → IsName argv (i + 2 * j))
      → read_options atoi read_line (suc left) i argv o ≡ none
  short zero i argv o sized names =
      let (s, name, e, known) = IsName-at argv {j = i} (omega arith) (names 0 (omega arith)) in
      read_options-missing 0 i argv o s name e known (omega arith)
  short (suc left) i argv o sized names =
      let (s, name, e, known) = IsName-at argv {j = i} (omega arith) (names 0 (omega arith)) in
      let (value, f) = get_elem?_lem argv (suc i) (omega arith) in
      read_options-step (suc left) i argv o s value name e known f
      ∙ short left (2 + i) argv (store_option name (atoi value) o) (omega arith)
          (λ j h. IsName-at argv (omega arith) (names (suc j) (omega arith)))

  -- With 19 arguments, the program's name counted, whose every second one from the third on is the
  -- name of an option, and a readable file, `main` gets past its check of their number and then
  -- reads past the last argument.
  pub cache_main-missing_value :
      (argv lines : List String)
      → length argv ≡ 19
      → ((j : ℕ) → j ≤ 8 → IsName argv (2 + 2 * j))
      → cache_main atoi read_line argv (some lines) ≡ none
  unfolding cache_main
  cache_main-missing_value argv lines sized names =
      let enough : ltb (length argv) 19 ≡ false = ground arith in
      rw (enough, cache_main) (rw (short 8 2 argv no_options (omega arith) names))
