-- ===== src/Config/Indices.antt =====
-- config_reader.py: the indices of the doors.
use hass_comelit_intercom_lo.Base.{
  ℕ, zero, suc, ◌+◌, ◌≡◌, refl, subst, ◌∙◌, ap, Bool, true, false, List, [], ◌∷◌, ◌++◌, map, Result,
  ok, err, ◌>>=◌, length, replicate, arith,
}
use hass_comelit_intercom_lo.Config.Json.{
  Json, number, text, boolean, object, array, no_fields, no_items, get_or,
}
use hass_comelit_intercom_lo.Config.Keys.{
  vip_key, user_parameters_key, apt_address_key, apt_subaddress_key, entrance_key, opendoor_key,
  actuator_key, camera_key, id_key, name_key, output_index_key, secure_mode_key,
}
use hass_comelit_intercom_lo.Config.Parse.{
  DoorEntry, ParsedConfig, module_index_of, caller_of_book, parse_door, parse_openers,
  parse_actuators, parse_cameras, entries, parse_config,
}

-- n numbers from k on.
abbrev pub numbers_from : ℕ → ℕ → List ℕ
numbers_from k zero = []
numbers_from k (suc n) = k ∷ numbers_from (k + 1) n

-- What a run of the code gives, if it returns: the property holds of the value.
abbrev pub IfReturns : {A : Type 0} → (A → Type 0) → Result A → Type 0
IfReturns P (ok a) = P a
IfReturns P (err e) = Unit

IfReturns-bind :
    {A B : Type 0} (P : A → Type 0) (Q : B → Type 0) (m : Result A) (f : A → Result B)
    → IfReturns P m
    → ((a : A) → P a → IfReturns Q (f a))
    → IfReturns Q (m >>= f)
IfReturns-bind P Q (ok a) f h k = k a h
IfReturns-bind P Q (err e) f h k = tt

IfReturns-behind :
    {A B : Type 0} (Q : B → Type 0) (m : Result A) (f : A → Result B)
    → ((a : A) → IfReturns Q (f a))
    → IfReturns Q (m >>= f)
IfReturns-behind Q (ok a) f k = k a
IfReturns-behind Q (err e) f k = tt

parse_door-index :
    (b : Bool) (k : ℕ) (value : Json)
    → IfReturns (λ d. (d.index ≡ k) × (d.is_actuator ≡ b)) (parse_door b k value)
unfolding parse_door
parse_door-index b k value =
    let Q = λ (d : DoorEntry). (d.index ≡ k) × (d.is_actuator ≡ b) in
    IfReturns-behind Q (get_or id_key (number k) value) _ λ id.
      IfReturns-behind Q (get_or name_key (text []) value) _ λ name.
        IfReturns-behind Q (get_or apt_address_key (text []) value) _ λ apt_address.
          IfReturns-behind Q (get_or output_index_key (number 0) value) _ λ output_index.
            IfReturns-behind Q (get_or secure_mode_key (boolean false) value) _ λ secure_mode.
              IfReturns-behind Q (module_index_of b value) _ λ module_index. (refl, refl)

abbrev pub indices : List DoorEntry → List ℕ
indices doors = map (λ d. d.index) doors

abbrev pub kinds : List DoorEntry → List Bool
kinds doors = map (λ d. d.is_actuator) doors

parse_openers-indices :
    (k : ℕ) (values : List Json)
    → IfReturns
        (λ r.
          (indices r.0 ≡ numbers_from k (length values))
          × (kinds r.0 ≡ replicate (length values) false)
          × (r.1 ≡ k + length values))
        (parse_openers k values)
unfolding parse_openers
parse_openers-indices k [] = (refl, refl, omega arith)
parse_openers-indices k (value ∷ rest) =
    let Q = λ (r : List DoorEntry × ℕ).
      (indices r.0 ≡ numbers_from k (suc (length rest)))
      × (kinds r.0 ≡ replicate (suc (length rest)) false)
      × (r.1 ≡ k + suc (length rest)) in
    IfReturns-bind (λ d. (d.index ≡ k) × (d.is_actuator ≡ false)) Q (parse_door false k value) _
      (parse_door-index false k value)
      λ door h.
        IfReturns-bind _ Q (parse_openers (k + 1) rest) (λ r. ok (door ∷ r.0, r.1))
          (parse_openers-indices (k + 1) rest)
          λ r ih. (
            ap (λ i. i ∷ indices r.0) h.0 ∙ ap (λ is. k ∷ is) ih.0,
            ap (λ b. b ∷ kinds r.0) h.1 ∙ ap (λ bs. false ∷ bs) ih.1,
            omega (arith, ih.2),
          )

parse_actuators-indices :
    (k : ℕ) (values : List Json)
    → IfReturns
        (λ doors.
          (indices doors ≡ replicate (length values) k)
          × (kinds doors ≡ replicate (length values) true))
        (parse_actuators k values)
unfolding parse_actuators
parse_actuators-indices k [] = (refl, refl)
parse_actuators-indices k (value ∷ rest) =
    let Q = λ (doors : List DoorEntry).
      (indices doors ≡ replicate (suc (length rest)) k)
      × (kinds doors ≡ replicate (suc (length rest)) true) in
    IfReturns-bind (λ d. (d.index ≡ k) × (d.is_actuator ≡ true)) Q (parse_door true k value) _
      (parse_door-index true k value)
      λ door h.
        IfReturns-bind _ Q (parse_actuators k rest) (λ doors. ok (door ∷ doors))
          (parse_actuators-indices k rest)
          λ doors ih. (
            ap (λ i. i ∷ indices doors) h.0 ∙ ap (λ is. k ∷ is) ih.0,
            ap (λ b. b ∷ kinds doors) h.1 ∙ ap (λ bs. true ∷ bs) ih.1,
          )

-- The doors are n openers, numbered from 0, and then m actuators, all under the number n.
abbrev pub AreNumbered : List DoorEntry → Type 0
AreNumbered doors =
    (n : ℕ) × (m : ℕ) × (indices doors ≡ numbers_from 0 n ++ replicate m n)
    × (kinds doors ≡ replicate n false ++ replicate m true)

map-append : {A B : Type 0} (f : A → B) (xs ys : List A) → map f (xs ++ ys) ≡ map f xs ++ map f ys
map-append f [] ys = refl
map-append f (x ∷ xs) ys = ap (λ zs. f x ∷ zs) (map-append f xs ys)

append-AreNumbered :
    (n m last : ℕ) (openers actuators : List DoorEntry)
    → (indices openers ≡ numbers_from 0 n) × (kinds openers ≡ replicate n false) × (last ≡ 0 + n)
    → (indices actuators ≡ replicate m last) × (kinds actuators ≡ replicate m true)
    → AreNumbered (openers ++ actuators)
append-AreNumbered n m last openers actuators h k =
    let e : last ≡ n = omega (arith, h.2) in
    (
      n,
      m,
      map-append (λ d. d.index) openers actuators
          ∙ ap (λ is. is ++ indices actuators) h.0
          ∙ ap (λ is. numbers_from 0 n ++ is) (k.0 ∙ ap (λ i. replicate m i) e),
      map-append (λ d. d.is_actuator) openers actuators
          ∙ ap (λ bs. bs ++ kinds actuators) h.1
          ∙ ap (λ bs. replicate n false ++ bs) k.1,
    )

numbered : (value : Json) → IfReturns (λ config. AreNumbered config.doors) (parse_config value)
unfolding parse_config
numbered value =
    let Q = λ (config : ParsedConfig). AreNumbered config.doors in
    IfReturns-behind Q (get_or vip_key (object no_fields) value) _ λ vip.
      IfReturns-behind Q (get_or apt_address_key (text []) vip) _ λ apt_address.
        IfReturns-behind Q (get_or apt_subaddress_key (number 0) vip) _ λ apt_subaddress.
          IfReturns-behind Q (get_or user_parameters_key (object no_fields) vip) _ λ params.
            IfReturns-behind Q (get_or entrance_key (array no_items) params) _ λ book.
              IfReturns-behind Q (caller_of_book book) _ λ caller.
                IfReturns-behind Q (entries opendoor_key params) _ λ openers.
                  IfReturns-bind _ Q (parse_openers 0 openers) _ (parse_openers-indices 0 openers)
                    λ r h. IfReturns-behind Q (entries actuator_key params) _ λ actuators.
                      IfReturns-bind _ Q (parse_actuators r.1 actuators) _
                        (parse_actuators-indices r.1 actuators)
                        λ doors k. IfReturns-behind Q (entries camera_key params) _ λ cameras.
                          IfReturns-behind Q (parse_cameras cameras) _ λ parsed.
                            append-AreNumbered (length openers) (length actuators) r.1 r.0 doors h k

-- Where a configuration is read, its openers come first, numbered from 0, and all its actuators
-- behind them have one and the same index, the number of openers.
pub parse_config-AreNumbered :
    (value : Json) (config : ParsedConfig)
    → parse_config value ≡ ok config
    → AreNumbered config.doors
parse_config-AreNumbered value config parsed =
    subst (IfReturns (λ c. AreNumbered c.doors)) parsed (numbered value)
