-- ===== src/Values/InMap.antt =====
-- A configuration that is a map from its keys: the operations that tools/geneos/internal/values uses have
-- the laws that the theorems about it ask for.
use cordial.Common.{
  ◌≡◌, refl, Bool, true, false, Option, none, some, List, Bytes, codes, eqb, eqb_refl, eqb_iff, [],
  ◌∷◌, map, if◌then◌else◌, arith, is_some,
}
use cordial.Text.{cut}
use cordial.Dict.{Dict, get, put, get-put}
use cordial.Values.Normal.{Held, anys, fields_of}
use cordial.Values.Conf.{Conf, SliceLaws}

pub data Entry : Type 0 where
  slice : List Bytes → Entry
  table : Dict Bytes → Entry
  vars : Held → Entry
  deleted : Entry

abbrev slice_of : Option Entry → List Bytes
slice_of (some (slice l)) = l
slice_of _ = []

abbrev table_of : Option Entry → Dict Bytes
table_of (some (table m)) = m
table_of _ = []

abbrev vars_of : Option Entry → Option Held
vars_of (some (vars h)) = some h
vars_of _ = none

abbrev all_pairs : List Bytes → Bool
all_pairs [] = true
all_pairs (p ∷ params) = if is_some (cut (codes "=") p) then all_pairs params else false

abbrev pub in_map : Conf
in_map = record {
  State = Dict Entry;
  Any = Bytes;
  text = λ t. t;
  get_slice = λ key s. slice_of (get key s);
  stored_slice = λ key s. slice_of (get key s);
  set_slice = λ key l s. put key (slice l) s;
  get_map = λ key s. table_of (get key s);
  set_map = λ key m s. put key (table m) s;
  lookup_any = λ key s. vars_of (get key s);
  set_variables = λ key l s. put key (vars (anys (map fields_of l))) s;
  delete = λ key s. put key deleted s;
  set_key_value_pairs = λ params s. (s, all_pairs params);
}

same_key :
    (key : Bytes) (e : Entry) (s : Dict Entry)
    → slice_of (get key (put key e s)) ≡ slice_of (some e)
same_key key e s = ground (arith, get-put key key e s, eqb_refl key)

other_key :
    (key key' : Bytes) (e : Entry) (s : Dict Entry)
    → eqb key key' ≡ false
    → slice_of (get key (put key' e s)) ≡ slice_of (get key s)
other_key key key' e s h = ground (arith, get-put key' key e s, eqb_iff key key', eqb_iff key' key)

pub in_map-SliceLaws : SliceLaws in_map
in_map-SliceLaws = record {
  get_plain = λ key s low h. refl;
  stored_set = λ key l s low. same_key key (slice l) s;
  stored_delete = λ key s low. same_key key deleted s;
  stored_set_other = λ key key' l s low low' h. other_key key key' (slice l) s h;
  stored_delete_other = λ key key' s low low' h. other_key key key' deleted s h;
  stored_set_map = λ key key' m s low low' h. other_key key key' (table m) s h;
  stored_set_variables =
      λ key key' l s low low' h. other_key key key' (vars (anys (map fields_of l))) s h;
}
