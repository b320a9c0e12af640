-- ===== src/Env/Tests.antt =====
-- The arguments of src/env.cpp at concrete inputs.
use net_ninja.Common.{◌≡◌, refl, true, false, none, some, List, [], ◌∷◌, All}
use net_ninja.Http.{Text, codes, same_text}
use net_ninja.Env.{
  Env, put, lookup_arg, without, add, has, del, get, remove_help, add_help, init_args, has_slash,
  directory, init, get_absolute_path, get_config_path, add_pending,
}
use net_ninja.Env.Given.{Given, IsGiven, written, add_all, init_args-written, written-init_args}

abbrev empty : Env
empty = record { m_args = []; m_helps = []; m_program = []; m_exe = []; m_cwd = [] }

abbrev argv : List Text
argv = codes "-c" ∷ codes "etc" ∷ codes "-d" ∷ codes "-p" ∷ codes "80" ∷ []

abbrev given : List Given
given = (codes "c", some (codes "etc")) ∷ (codes "d", none) ∷ (codes "p", some (codes "80")) ∷ []

started_run :
    let v = (init (codes "/opt/bin/server") argv empty).1 in
    (get_config_path v ≡ codes "/opt/bin/etc")
    × (has (codes "d") v ≡ true)
    × (get (codes "q") (codes "none") v ≡ codes "none")
unfolding put lookup_arg add has get init_args directory has_slash init get_absolute_path
    get_config_path same_text add_pending
started_run = (refl, refl, refl)

-- A number below zero cannot be a value.
negative_run :
    (init_args none (codes "-t" ∷ codes "-1" ∷ []) empty).1.m_args
    ≡ (codes "t", []) ∷ (codes "1", []) ∷ []
unfolding init_args add add_pending put same_text
negative_run = refl

help_run :
    (add_help (codes "c") (codes "path") (add_help (codes "c") (codes "old") empty)).m_helps
    ≡ (codes "c", codes "path") ∷ []
unfolding add_help remove_help without same_text
help_run = refl

deleted_run : has (codes "c") (del (codes "c") (add (codes "c") [] empty)) ≡ false
unfolding has del add put without lookup_arg same_text
deleted_run = refl

init_args-written_example : init_args none (written given) empty ≡ (true, add_all given empty)
init_args-written_example = init_args-written given empty (refl, (tt, (refl, tt)))

written-init_args_example :
    (l : List Given) × All IsGiven l
    × (written l ≡ argv)
    × (init_args none argv empty ≡ (true, add_all l empty))
unfolding init_args
written-init_args_example = written-init_args argv empty refl
