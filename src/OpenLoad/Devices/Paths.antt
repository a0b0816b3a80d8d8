-- ===== src/OpenLoad/Devices/Paths.antt =====
-- The directory of a device, as cmd_save of main/cmd_save.c makes it and cmd_open of
-- main/cmd_open_load.c goes into it.
use native.Mathlib.Nat.{pow-suc, one-le-pow}
use otdb.Base.{
  ℕ, zero, suc, ◌+◌, ◌*◌, ◌/◌, ◌%◌, ◌^◌, ◌<◌, ◌≤◌, ◌≡◌, ◌↔◌, refl, ap, List, [], ◌∷◌, ◌++◌, true,
  arith, length, length-take, ◌==◌, Bool-cases, inl, inr,
}
use otdb.Base.Splice.{take_all}
use otdb.Text.{codes, digit_char, show_loop, show_hex, strtoull, strtoull_end}
use otdb.Text.Numbers.{strtoull-show, strtoull_end-show_hex}
use otdb.OpenLoad.Devices.{is_hex_name, device_path}

length-show_loop_more :
    (f n : ℕ) (acc : List ℕ) → n < f → 1 + length acc ≤ length (show_loop 16 f n acc)
unfolding show_loop
length-show_loop_more zero n acc h = absurd (omega arith)
length-show_loop_more (suc f) n acc h = elim (Bool-cases (n / 16 == 0)) [
  | inl last ↦ rw last (omega arith)
  | inr more ↦
      let more_digits =
        length-show_loop_more f (n / 16) (digit_char (n % 16) ∷ acc) (ground arith) in
      rw more (omega (arith, more_digits))
]

power_step : (k : ℕ) → 16 ^ suc (suc k) ≡ 16 * 16 ^ suc k
power_step k = rw pow-suc (omega arith)

-- A number is printed with at most k + 1 digits where it is below that power of 16, and only there.
length-show_loop :
    (k f n : ℕ) (acc : List ℕ)
    → n < f
    → (length (show_loop 16 f n acc) ≤ suc k + length acc) ↔ (n < 16 ^ suc k)
unfolding show_loop
length-show_loop k zero n acc h = absurd (omega arith)
length-show_loop zero (suc f) n acc h = elim (Bool-cases (n / 16 == 0)) [
  | inl last ↦ rw last (λ e. ground arith, λ e. omega arith)
  | inr more ↦
      let more_digits =
        length-show_loop_more f (n / 16) (digit_char (n % 16) ∷ acc) (ground arith) in
      rw more (λ e. absurd (omega (arith, more_digits)), λ e. absurd (ground arith))
]
length-show_loop (suc k) (suc f) n acc h = elim (Bool-cases (n / 16 == 0)) [
  | inl last ↦
      rw last
        (λ e. ground (arith, power_step k, one-le-pow (suc k) 16 (omega arith)), λ e. omega arith)
  | inr more ↦
      let rest = length-show_loop k f (n / 16) (digit_char (n % 16) ∷ acc) (ground arith) in
      rw more (
        λ e. ground (arith, power_step k, rest.0 (omega arith)),
        λ e. omega (arith, rest.1 (omega (arith, power_step k))),
      )
]

length-show_hex : (n : ℕ) → (length (show_hex n) ≤ 14) ↔ (n < 2 ^ 56)
unfolding show_hex
length-show_hex n = length-show_loop 13 (n + 1) n [] (omega arith)

ended-IsHexName : (s : List ℕ) → 1 ≤ length s → strtoull_end s 16 ≡ [] → is_hex_name s ≡ true
unfolding is_hex_name
ended-IsHexName [] h e = absurd (omega arith)
ended-IsHexName (c ∷ s) h e = rw e refl

show_hex-IsHexName : (n : ℕ) → is_hex_name (show_hex n) ≡ true
unfolding show_hex
show_hex-IsHexName n =
    ended-IsHexName (show_hex n) (omega (arith, length-show_loop_more (n + 1) n [] (omega arith)))
      (strtoull_end-show_hex n)

-- The directory that cmd_save makes for a device has a name that cmd_open and cmd_load take for a
-- device's, and for this device's, whatever the identifier; but the path that they go into is that of
-- the directory only for an identifier below 2^56.
pub device_path-show_hex :
    (uid : ℕ)
    → uid < 2 ^ 64
    → (is_hex_name (show_hex uid) ≡ true)
      × (strtoull (show_hex uid) 16 ≡ uid)
      × ((device_path (show_hex uid) ≡ codes "/" ++ show_hex uid) ↔ (uid < 2 ^ 56))
unfolding device_path
device_path-show_hex uid h =
    let size = length-show_hex uid in
    (
      show_hex-IsHexName uid,
      (strtoull-show uid h).0,
      (
        λ e. size.0 (omega (arith, ap length e, length-take 15 (b'/' ∷ show_hex uid))),
        λ k. take_all 15 (b'/' ∷ show_hex uid) (omega (arith, size.1 k)),
      ),
    )
