-- ===== src/Server/KernelParams.antt =====
-- pkg/server/kernel_params.go: the kernel parameters that are looked at before the server runs. Reading a file
-- is a parameter, and what is logged is the result.
pub mod Preflight
use Prim.Native.Char.{code}
use Prim.Native.String.{String, [], ◌∷◌}
use mathlib.Core.List.{List}
use fast_vip.Prelude.{
  Bool, not, ◌||◌, Option, none, some, if◌then◌else◌, ◌==◌, string_eq, nat_beq, Dict, lookup,
  is_some, Result, ok, err, ◌^^◌, MapRange,
}

-- `expecteds` of nil is none; the set is a map to empty structs.
pub record KernelParamCheck : Type 0 where
  pub expecteds : Option (Dict String (Unit {0}))
  pub name : String
  pub expected : String

abbrev pub exactly : String → String → KernelParamCheck
exactly name expected = record { expecteds = none; name = name; expected = expected }

abbrev pub zero_or_two : String → KernelParamCheck
zero_or_two name = record {
  expecteds = some (List.◌∷◌ ("0", tt) (List.◌∷◌ ("2", tt) List.[]));
  name = name;
  expected = "";
}

abbrev pub kernel_param_checks : List KernelParamCheck
kernel_param_checks = List.◌∷◌ (exactly "net.ipv4.ip_forward" "1") (
    List.◌∷◌ (exactly "net.ipv4.vs.conntrack" "1") (
      List.◌∷◌ (zero_or_two "net.ipv4.conf.all.rp_filter")
        (List.◌∷◌ (zero_or_two "net.ipv4.conf.default.rp_filter") List.[])))

unfoldable pub is_valid : KernelParamCheck → String → Bool
is_valid c actual = elim c.expecteds [
  | none ↦ actual == c.expected
  | some values ↦ is_some (lookup actual values)
]

-- strings.Join(values, " or ")
unfoldable pub join_or : Dict String (Unit {0}) → String
join_or List.[] = ""
join_or (List.◌∷◌ (v, u) List.[]) = v
join_or (List.◌∷◌ (v, u) (List.◌∷◌ w rest)) = v ^^ " or " ^^ join_or (List.◌∷◌ w rest)

unfoldable pub expected_string : MapRange → KernelParamCheck → String
expected_string rng c = elim c.expecteds [
  | none ↦ c.expected
  | some values ↦ join_or (rng.order String (Unit {0}) values)
]

-- strings.ReplaceAll(name, ".", "/")
unfoldable pub dots_to_slashes : String → String
dots_to_slashes [] = ""
dots_to_slashes (c ∷ s) = (if nat_beq (code c) b'.' then "/" else c ∷ []) ^^ dots_to_slashes s

unfoldable pub kernel_param_path : String → String
kernel_param_path name = "/proc/sys/" ^^ dots_to_slashes name

pub data LogEntry : Type 0 where
  unreadable : String → LogEntry
  mismatch : String → String → String → LogEntry
  passed : LogEntry

module _ (rng : MapRange) (read : String → Result String) (trim_space : String → String) where
  -- The entry of a check that does not match.
  unfoldable pub check_param : KernelParamCheck → Option LogEntry
  check_param c = elim (read (kernel_param_path c.name)) [
    | err e ↦ some (unreadable c.name)
    | ok raw ↦
        if is_valid c (trim_space raw)
        then none
        else some (mismatch c.name (expected_string rng c) (trim_space raw))
  ]

  unfoldable pub failures : List KernelParamCheck → List LogEntry
  failures List.[] = List.[]
  failures (List.◌∷◌ c rest) =
      let others = failures rest in
      elim (check_param c) [ none ↦ others | some entry ↦ List.◌∷◌ entry others ]

  -- Nothing is read or logged unless the system is Linux, which is kernelParamCheckEnabled, and
  -- the server has a logger.
  unfoldable pub log_preflight : Bool → Bool → List LogEntry
  log_preflight check_enabled has_logger =
      if not check_enabled || not has_logger then List.[] else elim (failures kernel_param_checks) [
        | List.[] ↦ List.◌∷◌ passed List.[]
        | List.◌∷◌ entry rest ↦ List.◌∷◌ entry rest
      ]
