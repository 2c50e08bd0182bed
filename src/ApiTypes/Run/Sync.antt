-- ===== src/ApiTypes/Run/Sync.antt =====
-- What a check says of the generated file, and what it says after a run that wrote it.
use mathlib.Core.Path.{subst}
use foundry_capital_markets.ApiTypes.Types.{Js}
use foundry_capital_markets.Prelude.{
  ◌≡◌, refl, sym, ◌≢◌, ◌↔◌, Bool, true, false, Option, none, some, List, arith, Str, ===_iff,
}
use foundry_capital_markets.ApiTypes.Emit.{Generated, generated, types_missing, generate}
use foundry_capital_markets.ApiTypes.Run.{read_sources, check_file, checks, finish, main}

check_file-eq-zero :
    (text : Str) (file : Option Str) → (check_file text file ≡ 0) ↔ (file ≡ some text)
unfolding check_file
check_file-eq-zero text none = ground arith
check_file-eq-zero text (some current) = ground (arith, ===_iff current text)

-- What the sources generate.
abbrev pub IsGenerated : Js → List (List (Str × Str)) → Str → Type 0
IsGenerated js dirs text = generate js (read_sources dirs) ≡ generated text

finish_check :
    (file : Option Str) (g : Generated)
    → ((finish true file g).file ≡ file)
      × (((finish true file g).exit_code ≡ 0)
          ↔ ((text : Str) × ((g ≡ generated text) × (file ≡ some text))))
unfolding finish
finish_check file (types_missing gone) = (refl, ((λ e. cc), (λ (t, (e, _)). cc)))
finish_check file (generated text) = (
  refl,
  (
    (λ z. (text, (refl, (check_file-eq-zero text file).0 z))),
    (λ (t, (e, there)). (check_file-eq-zero text file).1 cc),
  ),
)

-- With `--check` a run leaves the generated file alone, and its exit code is 0 just when that file is
-- there and holds what the sources generate; if they generate nothing, for want of a type, it is not 0.
pub main_check :
    (js : Js) (dirs : List (List (Str × Str))) (argv : List Str) (file : Option Str)
    → checks argv ≡ true
    → ((main js dirs argv file).file ≡ file)
      × (((main js dirs argv file).exit_code ≡ 0)
          ↔ ((text : Str) × (IsGenerated js dirs text × (file ≡ some text))))
unfolding main
main_check js dirs argv file h =
    subst
      (λ b.
        ((finish b file (generate js (read_sources dirs))).file ≡ file)
        × (((finish b file (generate js (read_sources dirs))).exit_code ≡ 0)
            ↔ ((text : Str) × (IsGenerated js dirs text × (file ≡ some text)))))
      (sym h) (finish_check file (generate js (read_sources dirs)))

finish_again :
    (file : Option Str) (g : Generated)
    → let ended = finish false file g in
      ((ended.exit_code ≡ 0) → (finish true ended.file g).exit_code ≡ 0)
      × ((ended.exit_code ≢ 0) → ended.file ≡ file)
unfolding finish
finish_again file (types_missing gone) = ((λ e. ground (arith, e)), (λ n. refl))
finish_again file (generated text) =
    ((λ e. (check_file-eq-zero text (some text)).1 refl), (λ n. absurd (n refl)))

-- If a run that writes ends with exit code 0, then a check of the same sources behind it does so too;
-- if it ends with another, it has left the generated file as it was.
pub main_check-main :
    (js : Js) (dirs : List (List (Str × Str))) (argv check_argv : List Str) (file : Option Str)
    → checks argv ≡ false
    → checks check_argv ≡ true
    → let ended = main js dirs argv file in
      ((ended.exit_code ≡ 0) → (main js dirs check_argv ended.file).exit_code ≡ 0)
      × ((ended.exit_code ≢ 0) → ended.file ≡ file)
unfolding main
main_check-main js dirs argv check_argv file w c =
    subst
      (λ b.
        (d : Bool)
        → d ≡ true
        → let ended = finish b file (generate js (read_sources dirs)) in
          ((ended.exit_code ≡ 0)
            → (finish d ended.file (generate js (read_sources dirs))).exit_code ≡ 0)
          × ((ended.exit_code ≢ 0) → ended.file ≡ file))
      (sym w) (λ d e. rw e (finish_again file (generate js (read_sources dirs))))
      (checks check_argv) c
