-- ===== src/Config/Registry.antt =====
-- What evalExpandOptions leaves in defaultFuncMaps (pkg/config/expandoptions.go).
use cordial.Common.{
  ◌≡◌, refl, ap, ◌∙◌, true, Option, none, some, List, Bytes, codes, eqb, [], ◌∷◌, arith,
  if◌then◌else◌,
}
use cordial.Dict.{Dict, get, put, put_all, get-put}
use cordial.Config.Options.{
  PrefixFunc, FuncMaps, ExpandOptions, ExpandOption, initial_options, apply_options,
  eval_expand_options, eval_funcs,
}

abbrev or_else {ℓ} : {A : Type ℓ} → Option A → Option A → Option A
or_else (some a) _ = some a
or_else none o = o

module _ {ℓ} {V : Type ℓ} where
  -- The value under a key of maps.Copy(dst, src).
  abbrev pub last_of : Bytes → Option V → Dict V → Option V
  last_of k o [] = o
  last_of k o ((j, v) ∷ m) = last_of k (if eqb j k then some v else o) m

  get-put_all : (k : Bytes) (acc m : Dict V) → get k (put_all acc m) ≡ last_of k (get k acc) m
  unfolding put_all
  get-put_all k acc [] = refl
  get-put_all k acc ((j, v) ∷ m) =
      get-put_all k (put j v acc) m ∙ ap (λ o. last_of k o m) (get-put j k v acc)

  -- A value of the second map hides the one that was there.
  last_of-or_else :
      (k : Bytes) (o : Option V) (m : Dict V) → last_of k o m ≡ or_else (last_of k none m) o
  last_of-or_else k o [] = refl
  last_of-or_else k o ((j, v) ∷ m) =
      ground (arith, last_of-or_else k (some v) m, last_of-or_else k o m)

  last_of_twice :
      (k : Bytes) (o : Option V) (m : Dict V) → last_of k (last_of k o m) m ≡ last_of k o m
  last_of_twice k o m = ground (arith, last_of-or_else k (last_of k o m) m, last_of-or_else k o m)

abbrev options_of : List ExpandOption → List ExpandOption → ExpandOptions
options_of defaults options = apply_options options (apply_options defaults initial_options)

-- After an evaluation with external lookups on, an evaluation of no options at all has the functions
-- of the first one: those of its Prefix options, and `expr` where it turned expressions on.
functions_stay :
    (expr : PrefixFunc) (globals : FuncMaps) (defaults options : List ExpandOption)
    → (options_of defaults options).external_func_maps ≡ true
    → let first = eval_expand_options expr globals defaults options in
      (eval_expand_options expr first.1 [] []).0.func_maps ≡ first.0.func_maps
unfolding eval_expand_options
functions_stay expr globals defaults options h = ground arith

eval_funcs_again :
    (expr : PrefixFunc) (e : ExpandOptions) (globals : FuncMaps) (k : Bytes)
    → get k (eval_funcs expr e (eval_funcs expr e globals).1).0
      ≡ get k (eval_funcs expr e globals).0
unfolding eval_funcs
eval_funcs_again expr e globals k =
    let shared = put_all globals e.func_maps in
    let named = put (codes "expr") expr shared in
    ground (
      arith,
      get-put_all k globals e.func_maps,
      get-put_all k shared e.func_maps,
      get-put_all k named e.func_maps,
      last_of_twice k (get k globals) e.func_maps,
      last_of-or_else k (get k named) e.func_maps,
      last_of-or_else k (get k shared) e.func_maps,
      get-put (codes "expr") k expr shared,
      get-put (codes "expr") k expr (put_all shared e.func_maps),
      get-put (codes "expr") k expr (put_all named e.func_maps),
    )

-- Evaluating the same options again, as the nested calls of an expansion do, gives the same value of
-- every option and the same function for every prefix.
pub eval_again :
    (expr : PrefixFunc) (globals : FuncMaps) (defaults options : List ExpandOption) (k : Bytes)
    → let first = eval_expand_options expr globals defaults options in
      let second = eval_expand_options expr first.1 defaults options in
      (second.0 ≡ record first.0 { func_maps = second.0.func_maps })
      × (get k second.0.func_maps ≡ get k first.0.func_maps)
unfolding eval_expand_options
eval_again expr globals defaults options k =
    (refl, eval_funcs_again expr (options_of defaults options) globals k)
