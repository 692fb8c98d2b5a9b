-- ===== src/Path/Walks.antt =====
-- jsonv_value_get_path of src/shape/path.c against walks through the fields and elements of the heap.
use mathlib.Core.List.{append-nil}
use mathlib.Core.Path.{subst}
use jsonv.Base.{
  ℕ, ◌≡◌, refl, ap, ◌∙◌, ℤ, pos, negsuc, false, Option, none, some, List, [], ◌∷◌, ◌++◌, get_elem?,
}
use jsonv.Token.{Bytes}
use jsonv.Value.{Value, val_obj, val_arr, val_unresolvable, val_impossible, Heap}
use jsonv.Obj.Fields
use jsonv.Obj.Fields.{HasFields, find_value, obj_get-find_value}
use jsonv.Arr.{arr_get}
use jsonv.Arr.Elements
use jsonv.Arr.Elements.{HasElements, arr_get-elements}
use jsonv.Path.{
  Arg, key, index, after_key, after_index, key_turn, index_turn, is_container, path_turn,
  value_get_path,
}

-- The format that fits the arguments.
unfoldable pub format : List Arg → Bytes
format [] = []
format (key k ∷ args) = b's' ∷ format args
format (index i ∷ args) = b'i' ∷ format args

-- A walk along keys and indices that are there.
pub data Walk (h : Heap) : Value → List Arg → Value → Type 0 where
  here : {v : Value} → Walk h v [] v
  by_key :
      {o : ℕ} {fs : Fields.Fields} {k : Bytes} {v w : Value} {args : List Arg}
      → HasFields h o fs
      → find_value k fs ≡ some v
      → Walk h v args w
      → Walk h (val_obj (some o)) (key (some k) ∷ args) w
  by_index :
      {a : ℕ} {xs : List Value} {i : ℕ} {v w : Value} {args : List Arg}
      → HasElements h a xs
      → get_elem? xs i ≡ some v
      → Walk h v args w
      → Walk h (val_arr (some a)) (index (pos i) ∷ args) w

-- A walk that ends where the next key or index is missing, or asks for the wrong kind of container.
pub data Stops (h : Heap) : Value → List Arg → Value → Type 0 where
  no_key :
      {o : ℕ} {fs : Fields.Fields} {k : Bytes} {args : List Arg}
      → HasFields h o fs
      → find_value k fs ≡ none
      → Stops h (val_obj (some o)) (key (some k) ∷ args) val_unresolvable
  no_index :
      {a : ℕ} {xs : List Value} {i : ℕ} {args : List Arg}
      → HasElements h a xs
      → get_elem? xs i ≡ none
      → Stops h (val_arr (some a)) (index (pos i) ∷ args) val_unresolvable
  negative :
      {a n : ℕ} {args : List Arg}
      → Stops h (val_arr (some a)) (index (negsuc n) ∷ args) val_unresolvable
  no_object :
      {p : Option ℕ} {k : Option Bytes} {args : List Arg}
      → Stops h (val_arr p) (key k ∷ args) val_impossible
  no_array :
      {p : Option ℕ} {i : ℤ} {args : List Arg} → Stops h (val_obj p) (index i ∷ args) val_impossible
  no_container :
      {v : Value} {a : Arg} {args : List Arg}
      → is_container v ≡ false
      → Stops h v (a ∷ args) val_impossible

get_path-key :
    {h : Heap} {o : ℕ} {fs : Fields.Fields} (k : Bytes) (args : List Arg)
    → HasFields h o fs
    → path_turn b's' (key (some k) ∷ args) (val_obj (some o)) h
      ≡ after_key args (Fields.found_value (find_value k fs))
unfolding path_turn is_container key_turn
get_path-key k args f = ap (after_key args) (obj_get-find_value k f)

get_path-index :
    {h : Heap} {a : ℕ} {xs : List Value} (i : ℕ) (args : List Arg)
    → HasElements h a xs
    → path_turn b'i' (index (pos i) ∷ args) (val_arr (some a)) h
      ≡ after_index args (Elements.found_value (get_elem? xs i))
unfolding path_turn is_container index_turn
get_path-index i args e = ap (after_index args) (arr_get-elements i e)

-- Behind a walk, get_path goes on as it would from where the walk ends.
pub get_path-Walk :
    {h : Heap} {v w : Value} {args : List Arg} (rest : List Arg)
    → Walk h v args w
    → value_get_path (format (args ++ rest)) (args ++ rest) v h
      ≡ value_get_path (format rest) rest w h
unfolding value_get_path format after_key after_index
get_path-Walk rest here = refl
get_path-Walk rest (by_key {k = k} {args = args} f e walk) =
    rw (value_get_path, format, get_path-key k (args ++ rest) f) (rw e (get_path-Walk rest walk))
get_path-Walk rest (by_index {i = i} {args = args} f e walk) =
    rw (value_get_path, format, get_path-index i (args ++ rest) f) (rw e (get_path-Walk rest walk))

get_path-Stops :
    {h : Heap} {v w : Value} {args : List Arg}
    → Stops h v args w
    → value_get_path (format args) args v h ≡ some w
unfolding value_get_path format after_key after_index path_turn key_turn index_turn is_container
    arr_get
get_path-Stops (no_key {k = k} {args = args} f e) =
    rw (value_get_path, format, get_path-key k args f) (rw e)
get_path-Stops (no_index {i = i} {args = args} f e) =
    rw (value_get_path, format, get_path-index i args f) (rw e)
get_path-Stops negative = refl
get_path-Stops no_object = refl
get_path-Stops no_array = refl
get_path-Stops (no_container {a = key k} e) = rw (value_get_path, format, path_turn, e)
get_path-Stops (no_container {a = index i} e) = rw (value_get_path, format, path_turn, e)

-- With the format that fits the arguments, get_path finds the value at the end of a walk along keys and
-- indices that are there. Where the walk stops, it is "unresolvable" for a key or index that is missing,
-- and "impossible" for a key into an array, an index into an object, or a step from any other value.
pub value_get_path_lem :
    {h : Heap} {v w : Value} {args : List Arg}
    → Walk h v args w
    → (value_get_path (format args) args v h ≡ some w)
      × ((rest : List Arg) (x : Value)
          → Stops h w rest x
          → value_get_path (format (args ++ rest)) (args ++ rest) v h ≡ some x)
unfolding value_get_path format
value_get_path_lem {h = h} {v = v} {w = w} {args = args} walk = (
  subst (λ l. value_get_path (format l) l v h ≡ some w) (append-nil args) (get_path-Walk [] walk),
  λ rest x stop. get_path-Walk rest walk ∙ get_path-Stops stop,
)
