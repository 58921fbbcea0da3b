-- ===== src/Provider/Resources.antt =====
-- `parseMemory` and `parseCPU` of pkg/provider/docker_provider.go. What `fmt.Sscanf` reads is a
-- parameter.
use Prim.Native.String.{slice, len}
use docker_faas.Base.{
  ℕ, suc, ◌-◌, ◌*◌, ◌%◌, ◌^◌, String, ◌≡◌, refl, Bool, true, none, some, List, [], ◌∷◌, ltb, leb,
  if◌then◌else◌, ◌==◌, nat_eq, string_eq, bool_eq,
}
use docker_faas.Base.Int.{ℤ, pos, negsuc, sub_ℕ, int_eq}
use docker_faas.Base.Text.{codes, trim_space, to_lower, same_text, atoi}

-- A number as an int64: it wraps around.
unfoldable pub int64 : ℤ → ℤ
int64 (pos n) = let r = n % 2 ^ 64 in if ltb r (2 ^ 63) then pos r else sub_ℕ 0 (2 ^ 64 - r)
int64 (negsuc n) = let r = suc n % 2 ^ 64 in if leb r (2 ^ 63) then sub_ℕ 0 r else pos (2 ^ 64 - r)

abbrev pub times : ℤ → ℕ → ℤ
times (pos n) m = pos (n * m)
times (negsuc n) m = sub_ℕ 0 (suc n * m)

abbrev drop_last : ℕ → String → String
drop_last n s = slice s 0 (len s - n)

ends_with : List ℕ → List ℕ → Bool
ends_with [] suffix = same_text [] suffix
ends_with (c ∷ s) suffix =
    let rest = ends_with s suffix in if same_text (c ∷ s) suffix then true else rest

-- The length of the unit and its factor
abbrev memory_unit : List ℕ → ℕ × ℕ
memory_unit lower =
    if ends_with lower (codes "ki")
    then (2, 1024)
    else if ends_with lower (codes "mi")
    then (2, 1024 * 1024)
    else if ends_with lower (codes "gi")
    then (2, 1024 * 1024 * 1024)
    else if ends_with lower (codes "k")
    then (1, 1024)
    else if ends_with lower (codes "m")
    then (1, 1024 * 1024)
    else if ends_with lower (codes "g")
    then (1, 1024 * 1024 * 1024)
    else (0, 1)

unfoldable pub parse_memory : (String → ℤ) → String → ℤ
unfolding ends_with
parse_memory scan_int mem =
    let trimmed = trim_space mem in
    let unit = memory_unit (to_lower trimmed) in
    if trimmed == "" then pos 0 else int64 (times (scan_int (drop_last unit.0 trimmed)) unit.1)

unfoldable pub parse_cpu : (String → ℤ) → (String → ℤ) → String → ℤ
unfolding ends_with
parse_cpu scan_int scan_nano_cpus cpu =
    let trimmed = trim_space cpu in
    if trimmed == ""
    then pos 0
    else if ends_with (to_lower trimmed) (codes "m")
    then int64 (times (scan_int (drop_last 1 trimmed)) 1000000)
    else scan_nano_cpus trimmed

-- The number that `Sscanf` reads of a text that is one
abbrev atoi_or_zero : String → ℤ
atoi_or_zero s = elim (atoi s) [ none ↦ pos 0 | some i ↦ i ]

resources :
    (parse_memory atoi_or_zero " 128Mi" ≡ pos 134217728)
    × (parse_memory atoi_or_zero "1g" ≡ pos 1073741824)
    × (parse_memory atoi_or_zero "8589934592Gi" ≡ int64 (pos (2 ^ 63)))
    × (parse_cpu atoi_or_zero atoi_or_zero "500m" ≡ pos 500000000)
unfolding parse_memory parse_cpu atoi trim_space to_lower same_text int64
resources = (refl, refl, refl, refl)
