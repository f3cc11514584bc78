-- ===== src/Idempotency/KeyOrder.antt =====
-- `stableStringify` does not see the order of an object's keys, at any depth.
use Prim.Native.String.{◌++◌}
use mathlib.Core.Path.{ap₂}
use nest_base.Base.{String, ◌≡◌, refl, ap, ◌∙◌, true, false, ◌&&◌, List, [], ◌∷◌, arith}
use nest_base.Idempotency.{
  Scalar, Json, scalar, arr, obj, Items, nil, cons, Fields, end, field, Platform, join, braced,
  insert_entry, sort_entries, stringify_items, stringify_fields, stable_stringify,
  compute_request_hash,
}

-- Two bodies that differ in the order of object keys alone, where keys that `localeCompare` calls
-- equal, as it does with texts that are canonically equivalent, keep their order.
mutual
  pub data SameBody (pf : Platform) : Json → Json → Type 0 where
    same_scalar : (s : Scalar) → SameBody pf (scalar s) (scalar s)
    same_arr : {xs ys : Items} → SameItems pf xs ys → SameBody pf (arr xs) (arr ys)
    same_obj : {fs gs : Fields} → SameFields pf fs gs → SameBody pf (obj fs) (obj gs)

  pub data SameItems (pf : Platform) : Items → Items → Type 0 where
    same_nil : SameItems pf nil nil
    same_cons :
        {x y : Json} {xs ys : Items}
        → SameBody pf x y
        → SameItems pf xs ys
        → SameItems pf (cons x xs) (cons y ys)

  pub data SameFields (pf : Platform) : Fields → Fields → Type 0 where
    same_end : SameFields pf end end
    same_field :
        {v w : Json} {fs gs : Fields} (k : String)
        → SameBody pf v w
        → SameFields pf fs gs
        → SameFields pf (field k v fs) (field k w gs)
    swapped :
        (k j : String) (v w : Json) (fs : Fields)
        → (pf.locale_le k j && pf.locale_le j k) ≡ false
        → SameFields pf (field k v (field j w fs)) (field j w (field k v fs))
    chained : {fs gs hs : Fields} → SameFields pf fs gs → SameFields pf gs hs → SameFields pf fs hs

-- What is documented of `localeCompare`: it is an order of the keys, in which two keys may tie.
pub record IsCollation (pf : Platform) : Type 0 where
  pub total : (a b : String) → pf.locale_le a b ≡ false → pf.locale_le b a ≡ true
  pub trans :
      (a b c : String) → pf.locale_le a b ≡ true → pf.locale_le b c ≡ true → pf.locale_le a c ≡ true

module _ (pf : Platform) (c : IsCollation pf) where
  insert_comm :
      (e d : String × String) (l : List (String × String))
      → (pf.locale_le e.0 d.0 && pf.locale_le d.0 e.0) ≡ false
      → insert_entry pf e (insert_entry pf d l) ≡ insert_entry pf d (insert_entry pf e l)
  unfolding insert_entry
  insert_comm e d [] ne = ground (arith, ne, c.total e.0 d.0)
  insert_comm e d (x ∷ l) ne =
      ground
        (arith, ne, insert_comm e d l ne, c.total e.0 d.0, c.trans e.0 d.0 x.0, c.trans d.0 e.0 x.0)

  mutual
    unfolding stable_stringify

    stringify_same : {a b : Json} → SameBody pf a b → stable_stringify pf a ≡ stable_stringify pf b
    stringify_same (same_scalar s) = refl
    stringify_same (same_arr h) = ap (λ l. "[" ++ (join l ++ "]")) (items_same h)
    stringify_same (same_obj h) = ap (braced pf) (fields_same h)

    items_same :
        {xs ys : Items} → SameItems pf xs ys → stringify_items pf xs ≡ stringify_items pf ys
    items_same same_nil = refl
    items_same (same_cons h t) = ap₂ (λ s l. s ∷ l) (stringify_same h) (items_same t)

    fields_same :
        {fs gs : Fields}
        → SameFields pf fs gs
        → sort_entries pf (stringify_fields pf fs) ≡ sort_entries pf (stringify_fields pf gs)
    fields_same same_end = refl
    fields_same (same_field k h t) =
        ap₂ (λ s l. insert_entry pf (k, s) l) (stringify_same h) (fields_same t)
    fields_same (swapped k j v w fs ne) =
        insert_comm (k, stable_stringify pf v) (j, stable_stringify pf w)
          (sort_entries pf (stringify_fields pf fs)) ne
    fields_same (chained h t) = fields_same h ∙ fields_same t

  -- Two requests with the same method and path, whose bodies differ at most in the order of object
  -- keys at any depth, have the same request hash, where keys that `localeCompare` calls equal stand
  -- in one order in both, if `localeCompare` is an order.
  pub compute_request_hash-same :
      (method path : String) {a b : Json}
      → SameBody pf a b
      → compute_request_hash pf (record { method = method; path = path; body = a })
        ≡ compute_request_hash pf (record { method = method; path = path; body = b })
  unfolding compute_request_hash
  compute_request_hash-same method path h =
      ap (λ t. pf.sha256 (pf.to_upper_case method ++ ("\n" ++ (path ++ ("\n" ++ t)))))
        (stringify_same h)
