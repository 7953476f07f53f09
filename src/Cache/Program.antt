-- ===== src/Cache/Program.antt =====
-- HW2/cacheSim.cpp: `main`, with the options, the loop over the lines of the file and the output.
-- `atoi` is the C library's; `read_line` splits a line of the file into its operation and its address,
-- as a stringstream, `substr` and `strtoul` do, and is `none` on a format error.
use Prim.Native.String.{String}
use text.Mathlib.Text.{◌==◌}
use computer_structures.Base.{
  ℕ, zero, suc, ◌+◌, Option, none, some, List, [], ◌∷◌, if◌then◌else◌, ltb, length, get_elem?,
  ◌>>=◌,
}
use computer_structures.Cache.Ops.{
  WritePolicy, no_write_allocate, write_allocate, Cache, Params, cache, Access, access,
}

-- The names that an option can have.
pub data OptionName : Type 0 where
  mem_cyc bsize l1_size l2_size l1_cyc l2_cyc l1_assoc l2_assoc wr_alloc : OptionName

unfoldable pub option_name : String → Option OptionName
option_name s =
    if s == "--mem-cyc"
    then some OptionName.mem_cyc
    else if s == "--bsize"
    then some bsize
    else if s == "--l1-size"
    then some l1_size
    else if s == "--l2-size"
    then some l2_size
    else if s == "--l1-cyc"
    then some l1_cyc
    else if s == "--l2-cyc"
    then some l2_cyc
    else if s == "--l1-assoc"
    then some l1_assoc
    else if s == "--l2-assoc"
    then some l2_assoc
    else if s == "--wr-alloc"
    then some OptionName.wr_alloc
    else none

-- The variables of `main` that the options set.
pub record Options : Type 0 where
  pub mem_cyc : ℕ
  pub b_size : ℕ
  pub l1_size : ℕ
  pub l2_size : ℕ
  pub l1_assoc : ℕ
  pub l2_assoc : ℕ
  pub l1_cyc : ℕ
  pub l2_cyc : ℕ
  pub wr_alloc : ℕ

abbrev pub no_options : Options
no_options = record {
  mem_cyc = 0;
  b_size = 0;
  l1_size = 0;
  l2_size = 0;
  l1_assoc = 0;
  l2_assoc = 0;
  l1_cyc = 0;
  l2_cyc = 0;
  wr_alloc = 0;
}

abbrev pub store_option : OptionName → ℕ → Options → Options
store_option OptionName.mem_cyc v o = record o { mem_cyc = v }
store_option bsize v o = record o { b_size = v }
store_option OptionName.l1_size v o = record o { l1_size = v }
store_option OptionName.l2_size v o = record o { l2_size = v }
store_option OptionName.l1_cyc v o = record o { l1_cyc = v }
store_option OptionName.l2_cyc v o = record o { l2_cyc = v }
store_option OptionName.l1_assoc v o = record o { l1_assoc = v }
store_option OptionName.l2_assoc v o = record o { l2_assoc = v }
store_option OptionName.wr_alloc v o = record o { wr_alloc = v }

-- `static_cast<WritePolicy>`, which is undefined for a number that is not a policy.
abbrev pub write_policy_of : ℕ → Option WritePolicy
write_policy_of zero = some no_write_allocate
write_policy_of (suc zero) = some write_allocate
write_policy_of (suc (suc n)) = none

abbrev pub params_of : Options → Option Params
params_of o = write_policy_of o.wr_alloc >>= λ policy. some (record {
  mem_cyc = o.mem_cyc;
  b_size = o.b_size;
  l1_size = o.l1_size;
  l2_size = o.l2_size;
  l1_assoc = o.l1_assoc;
  l2_assoc = o.l2_assoc;
  l1_cyc = o.l1_cyc;
  l2_cyc = o.l2_cyc;
  wr_alloc = policy;
})

-- The numerators and denominators of the three quotients that are printed.
pub record Printed : Type 0 where
  pub l1_miss : ℕ × ℕ
  pub l2_miss : ℕ × ℕ
  pub acc_time_avg : ℕ × ℕ

abbrev pub printed : Cache → Printed
printed c = record {
  l1_miss = (c.l1.miss_count, c.l1.access_count);
  l2_miss = (c.l2.miss_count, c.l2.access_count);
  acc_time_avg = (c.t_access_total, c.l1.access_count);
}

-- How `main` ends.
pub data Ending : Type 0 where
  not_enough_arguments file_not_found error_in_arguments command_format_error : Ending
  finished : Printed → Ending

module _ (atoi : String → ℕ) (read_line : String → Option Access) where
  -- The loop over the options, with `left` rounds to go at `argv[i]`: a fault where an argument is
  -- missing, else the options or an unknown name.
  unfoldable pub read_options : ℕ → ℕ → List String → Options → Option (Option Options)
  read_options zero i argv o = some (some o)
  read_options (suc left) i argv o = get_elem? argv i >>= λ s. elim (option_name s) [
    | none ↦ some none
    | some name ↦ get_elem? argv (suc i) >>= λ value.
        read_options left (2 + i) argv (store_option name (atoi value) o)
  ]

  -- The loop over the lines; `some none` is a format error.
  unfoldable pub run_lines : Cache → List String → Option (Option Cache)
  run_lines c [] = some (some c)
  run_lines c (line ∷ lines) = elim (read_line line) [
    | none ↦ some none
    | some a ↦ access c a >>= λ c'. run_lines c' lines
  ]

  -- `file` is the lines of the file `argv[1]`, if it can be read.
  unfoldable pub cache_main : List String → Option (List String) → Option Ending
  cache_main argv file = if ltb (length argv) 19 then some not_enough_arguments else elim file [
    | none ↦ some file_not_found
    | some lines ↦ read_options 9 2 argv no_options >>= λ r. elim r [
      | none ↦ some error_in_arguments
      | some o ↦ params_of o >>= λ p. cache p >>= λ c. run_lines c lines >>= λ e. elim e [
        | none ↦ some command_format_error
        | some c ↦ some (finished (printed c))
      ]
    ]
  ]
