-- ===== src/Algo/Keccak.antt =====
-- `keccakF1600` of sources/algo/keccak.hpp and `rol_u64` of sources/algo/rol.hpp. The source writes two
-- rounds out in one turn of its loop, from the lanes A to the lanes E and back; the second text is the
-- first with A and E exchanged, and each is `f1600_round`.
pub mod Reference
pub mod F1600
pub mod Sponge
use Prim.Native.Nat.{bit_and, bit_or, bit_xor}
use luminousminer.Prelude.{ℕ, ◌-◌, ◌*◌, ◌/◌, ◌^◌, List, [], ◌∷◌, get_or}
use luminousminer.Prelude.Word.{u64}

unfoldable pub rol_u64 : ℕ → ℕ → ℕ
rol_u64 x s = bit_or (u64 (x * 2 ^ s)) (x / 2 ^ (64 - s))

-- `~x` on uint64_t.
unfoldable pub not_u64 : ℕ → ℕ
not_u64 x = 2 ^ 64 - 1 - x

-- The local variables Aba to Asu.
pub record Lanes : Type 0 where
  pub ba : ℕ
  pub be : ℕ
  pub bi : ℕ
  pub bo : ℕ
  pub bu : ℕ
  pub ga : ℕ
  pub ge : ℕ
  pub gi : ℕ
  pub go : ℕ
  pub gu : ℕ
  pub ka : ℕ
  pub ke : ℕ
  pub ki : ℕ
  pub ko : ℕ
  pub ku : ℕ
  pub ma : ℕ
  pub me : ℕ
  pub mi : ℕ
  pub mo : ℕ
  pub mu : ℕ
  pub sa : ℕ
  pub se : ℕ
  pub si : ℕ
  pub so : ℕ
  pub su : ℕ

unfoldable pub load_lanes : List ℕ → Lanes
load_lanes xs = record {
  ba = get_or xs 0 0;
  be = get_or xs 1 0;
  bi = get_or xs 2 0;
  bo = get_or xs 3 0;
  bu = get_or xs 4 0;
  ga = get_or xs 5 0;
  ge = get_or xs 6 0;
  gi = get_or xs 7 0;
  go = get_or xs 8 0;
  gu = get_or xs 9 0;
  ka = get_or xs 10 0;
  ke = get_or xs 11 0;
  ki = get_or xs 12 0;
  ko = get_or xs 13 0;
  ku = get_or xs 14 0;
  ma = get_or xs 15 0;
  me = get_or xs 16 0;
  mi = get_or xs 17 0;
  mo = get_or xs 18 0;
  mu = get_or xs 19 0;
  sa = get_or xs 20 0;
  se = get_or xs 21 0;
  si = get_or xs 22 0;
  so = get_or xs 23 0;
  su = get_or xs 24 0;
}

unfoldable pub store_lanes : Lanes → List ℕ
store_lanes s =
    s.ba ∷ s.be ∷ s.bi ∷ s.bo ∷ s.bu ∷ s.ga ∷ s.ge ∷ s.gi ∷ s.go ∷ s.gu ∷ s.ka ∷ s.ke ∷ s.ki ∷ s.ko
    ∷ s.ku ∷ s.ma ∷ s.me ∷ s.mi ∷ s.mo ∷ s.mu ∷ s.sa ∷ s.se ∷ s.si ∷ s.so ∷ s.su ∷ []

unfoldable pub f1600_round : ℕ → Lanes → Lanes
f1600_round rc s =
    let ba = bit_xor (bit_xor (bit_xor (bit_xor s.ba s.ga) s.ka) s.ma) s.sa in
    let be = bit_xor (bit_xor (bit_xor (bit_xor s.be s.ge) s.ke) s.me) s.se in
    let bi = bit_xor (bit_xor (bit_xor (bit_xor s.bi s.gi) s.ki) s.mi) s.si in
    let bo = bit_xor (bit_xor (bit_xor (bit_xor s.bo s.go) s.ko) s.mo) s.so in
    let bu = bit_xor (bit_xor (bit_xor (bit_xor s.bu s.gu) s.ku) s.mu) s.su in
    let d_a = bit_xor bu (rol_u64 be 1) in
    let d_e = bit_xor ba (rol_u64 bi 1) in
    let d_i = bit_xor be (rol_u64 bo 1) in
    let d_o = bit_xor bi (rol_u64 bu 1) in
    let d_u = bit_xor bo (rol_u64 ba 1) in
    let ba = bit_xor s.ba d_a in
    let be = rol_u64 (bit_xor s.ge d_e) 44 in
    let bi = rol_u64 (bit_xor s.ki d_i) 43 in
    let bo = rol_u64 (bit_xor s.mo d_o) 21 in
    let bu = rol_u64 (bit_xor s.su d_u) 14 in
    let eba = bit_xor (bit_xor ba (bit_and (not_u64 be) bi)) rc in
    let ebe = bit_xor be (bit_and (not_u64 bi) bo) in
    let ebi = bit_xor bi (bit_and (not_u64 bo) bu) in
    let ebo = bit_xor bo (bit_and (not_u64 bu) ba) in
    let ebu = bit_xor bu (bit_and (not_u64 ba) be) in
    let ba = rol_u64 (bit_xor s.bo d_o) 28 in
    let be = rol_u64 (bit_xor s.gu d_u) 20 in
    let bi = rol_u64 (bit_xor s.ka d_a) 3 in
    let bo = rol_u64 (bit_xor s.me d_e) 45 in
    let bu = rol_u64 (bit_xor s.si d_i) 61 in
    let ega = bit_xor ba (bit_and (not_u64 be) bi) in
    let ege = bit_xor be (bit_and (not_u64 bi) bo) in
    let egi = bit_xor bi (bit_and (not_u64 bo) bu) in
    let ego = bit_xor bo (bit_and (not_u64 bu) ba) in
    let egu = bit_xor bu (bit_and (not_u64 ba) be) in
    let ba = rol_u64 (bit_xor s.be d_e) 1 in
    let be = rol_u64 (bit_xor s.gi d_i) 6 in
    let bi = rol_u64 (bit_xor s.ko d_o) 25 in
    let bo = rol_u64 (bit_xor s.mu d_u) 8 in
    let bu = rol_u64 (bit_xor s.sa d_a) 18 in
    let eka = bit_xor ba (bit_and (not_u64 be) bi) in
    let eke = bit_xor be (bit_and (not_u64 bi) bo) in
    let eki = bit_xor bi (bit_and (not_u64 bo) bu) in
    let eko = bit_xor bo (bit_and (not_u64 bu) ba) in
    let eku = bit_xor bu (bit_and (not_u64 ba) be) in
    let ba = rol_u64 (bit_xor s.bu d_u) 27 in
    let be = rol_u64 (bit_xor s.ga d_a) 36 in
    let bi = rol_u64 (bit_xor s.ke d_e) 10 in
    let bo = rol_u64 (bit_xor s.mi d_i) 15 in
    let bu = rol_u64 (bit_xor s.so d_o) 56 in
    let ema = bit_xor ba (bit_and (not_u64 be) bi) in
    let eme = bit_xor be (bit_and (not_u64 bi) bo) in
    let emi = bit_xor bi (bit_and (not_u64 bo) bu) in
    let emo = bit_xor bo (bit_and (not_u64 bu) ba) in
    let emu = bit_xor bu (bit_and (not_u64 ba) be) in
    let ba = rol_u64 (bit_xor s.bi d_i) 62 in
    let be = rol_u64 (bit_xor s.go d_o) 55 in
    let bi = rol_u64 (bit_xor s.ku d_u) 39 in
    let bo = rol_u64 (bit_xor s.ma d_a) 41 in
    let bu = rol_u64 (bit_xor s.se d_e) 2 in
    let esa = bit_xor ba (bit_and (not_u64 be) bi) in
    let ese = bit_xor be (bit_and (not_u64 bi) bo) in
    let esi = bit_xor bi (bit_and (not_u64 bo) bu) in
    let eso = bit_xor bo (bit_and (not_u64 bu) ba) in
    let esu = bit_xor bu (bit_and (not_u64 ba) be) in
    record {
      ba = eba;
      be = ebe;
      bi = ebi;
      bo = ebo;
      bu = ebu;
      ga = ega;
      ge = ege;
      gi = egi;
      go = ego;
      gu = egu;
      ka = eka;
      ke = eke;
      ki = eki;
      ko = eko;
      ku = eku;
      ma = ema;
      me = eme;
      mi = emi;
      mo = emo;
      mu = emu;
      sa = esa;
      se = ese;
      si = esi;
      so = eso;
      su = esu;
    }

abbrev pub f1600_constants : List ℕ
f1600_constants =
    0x0000000000000001 ∷ 0x0000000000008082 ∷ 0x800000000000808a ∷ 0x8000000080008000
    ∷ 0x000000000000808b ∷ 0x0000000080000001 ∷ 0x8000000080008081 ∷ 0x8000000000008009
    ∷ 0x000000000000008a ∷ 0x0000000000000088 ∷ 0x0000000080008009 ∷ 0x000000008000000a
    ∷ 0x000000008000808b ∷ 0x800000000000008b ∷ 0x8000000000008089 ∷ 0x8000000000008003
    ∷ 0x8000000000008002 ∷ 0x8000000000000080 ∷ 0x000000000000800a ∷ 0x800000008000000a
    ∷ 0x8000000080008081 ∷ 0x8000000000008080 ∷ 0x0000000080000001 ∷ 0x8000000080008008 ∷ []

-- The `for` over n, which takes two constants in each turn.
unfoldable pub f1600_rounds : List ℕ → Lanes → Lanes
f1600_rounds [] s = s
f1600_rounds (rc ∷ []) s = s
f1600_rounds (rc ∷ rc' ∷ rest) s = f1600_rounds rest (f1600_round rc' (f1600_round rc s))

unfoldable pub keccak_f1600 : List ℕ → List ℕ
unfolding load_lanes store_lanes f1600_rounds
keccak_f1600 state = store_lanes (f1600_rounds f1600_constants (load_lanes state))
