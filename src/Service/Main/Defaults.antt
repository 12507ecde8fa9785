-- ===== src/Service/Main/Defaults.antt =====
-- `main` with a configuration file that cannot be loaded.
use psuart.Prelude.{
  ◌≡◌, refl, sym, ◌∙◌, ℕ, List, map, Option, some, none, ◌>>=◌, inl, inr, Option-cases,
}
use psuart.Service.Config.{
  Row, psuservice_def, handler, handle_all, default_config, save_config, read_numbers,
  load_psu_config,
}
use psuart.Service.Main.{config_name, World, run_service, daemon, main}
use psuart.Service.Main.Startup.{go_on, main_configured}

-- a line for each row of psuservice.def, with its default
abbrev pub default_calls : List ℕ → List (List ℕ × List ℕ × List ℕ)
default_calls default_log_file =
    map (λ (row : Row). (row.section, row.name, row.default)) (psuservice_def default_log_file)

-- the same, with configuration files that can be loaded and have these lines
abbrev pub with_defaults : World → World
with_defaults w = record w { ini_parse = λ fn. some (default_calls w.default_log_file) }

main_unloaded :
    (w : World) (argv : List (List ℕ)) (fn : List ℕ) {file : Option (List ℕ)}
    → config_name argv ≡ some fn
    → w.ini_parse fn ≡ none
    → save_config (w.writable fn) (default_config (psuservice_def w.default_log_file)) (w.file fn)
      ≡ some file
    → main w argv ≡ (
        read_numbers w.atoi (default_config (psuservice_def w.default_log_file)) >>= λ numbers.
        go_on w argv (default_config (psuservice_def w.default_log_file)) numbers)
unfolding main load_psu_config
main_unloaded w argv fn named failed saved =
    elim (Option-cases (read_numbers w.atoi (default_config (psuservice_def w.default_log_file)))) [
      | inl fault ↦ rw (named, failed, saved, fault)
      | inr (numbers, e) ↦ rw (named, failed, saved, e)
    ]

same_start :
    (w : World) (argv : List (List ℕ))
    → (read_numbers w.atoi (default_config (psuservice_def w.default_log_file)) >>= λ numbers.
        go_on w argv (default_config (psuservice_def w.default_log_file)) numbers)
      ≡ (read_numbers w.atoi
            (handle_all (default_calls w.default_log_file) (psuservice_def w.default_log_file))
          >>= λ numbers.
              go_on
                (with_defaults w)
                argv
                (handle_all (default_calls w.default_log_file) (psuservice_def w.default_log_file))
                numbers)
unfolding run_service daemon handler default_config
same_start w argv = refl

-- Whatever the arguments that name a configuration file, or none, without a fault: if that file cannot be
-- loaded, and writing the defaults to it makes no fault, whether or not it succeeds, then `main` does
-- what it does with a file that sets each key to its default.
pub main_defaults :
    (w : World) (argv : List (List ℕ)) (fn : List ℕ) {file : Option (List ℕ)}
    → config_name argv ≡ some fn
    → w.ini_parse fn ≡ none
    → save_config (w.writable fn) (default_config (psuservice_def w.default_log_file)) (w.file fn)
      ≡ some file
    → main w argv ≡ main (with_defaults w) argv
main_defaults w argv fn named failed saved =
    let given =
      main_configured (with_defaults w) argv fn (default_calls w.default_log_file) named refl in
    main_unloaded w argv fn named failed saved ∙ same_start w argv ∙ sym given
