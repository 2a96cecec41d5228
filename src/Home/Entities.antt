-- ===== src/Home/Entities.antt =====
-- button.py: `async_setup_entry`, with the unique ids that the buttons give themselves.
use hass_comelit_intercom_lo.Base.{
  ℕ, zero, suc, ◌≡◌, refl, ap, ◌∙◌, true, false, Option, none, some, List, [], ◌∷◌, ◌++◌, map,
  replicate, ok,
}
use hass_comelit_intercom_lo.Base.Bytes.{Str, decimal}
use hass_comelit_intercom_lo.Base.Text.{codes}
use hass_comelit_intercom_lo.Config.Json.{Json}
use hass_comelit_intercom_lo.Config.Parse.{DoorEntry, ParsedConfig, parse_config}
use hass_comelit_intercom_lo.Config.Indices.{numbers_from, parse_config-AreNumbered}

pub data Button : Type 0 where
  door : DoorEntry → Button
  start_video stop_video restart_notifications : Button

abbrev pub video_buttons : List DoorEntry → List Button
video_buttons [] = []
video_buttons (d ∷ doors) = start_video ∷ stop_video ∷ []

-- The buttons of an entry; none without a configuration.
unfoldable pub buttons : Option ParsedConfig → List Button
buttons none = []
buttons (some config) =
    map door config.doors ++ (video_buttons config.doors ++ restart_notifications ∷ [])

-- f"{entry_id}_door_{index}"
abbrev pub door_id : Str → ℕ → Str
door_id entry_id index = entry_id ++ (codes "_door_" ++ decimal index)

unfoldable pub unique_id : Str → Button → Str
unique_id entry_id (door d) = door_id entry_id d.index
unique_id entry_id start_video = entry_id ++ codes "_video_start"
unique_id entry_id stop_video = entry_id ++ codes "_video_stop"
unique_id entry_id restart_notifications = entry_id ++ codes "_restart_notifications"

abbrev pub door_ids : Str → List DoorEntry → List Str
door_ids entry_id doors = map (unique_id entry_id) (map door doors)

map-append : {A B : Type 0} (f : A → B) (xs ys : List A) → map f (xs ++ ys) ≡ map f xs ++ map f ys
map-append f [] ys = refl
map-append f (x ∷ xs) ys = ap (λ zs. f x ∷ zs) (map-append f xs ys)

map-replicate :
    {A B : Type 0} (f : A → B) (n : ℕ) (a : A) → map f (replicate n a) ≡ replicate n (f a)
map-replicate f zero a = refl
map-replicate f (suc n) a = ap (λ bs. f a ∷ bs) (map-replicate f n a)

door_ids_lem :
    (entry_id : Str) (doors : List DoorEntry)
    → door_ids entry_id doors ≡ map (door_id entry_id) (map (λ d. d.index) doors)
unfolding unique_id
door_ids_lem entry_id [] = refl
door_ids_lem entry_id (d ∷ doors) =
    ap (λ ids. door_id entry_id d.index ∷ ids) (door_ids_lem entry_id doors)

-- The buttons of the n openers have the ids of the numbers from 0, but those of the m actuators all
-- have one and the same unique id, that of the number n.
pub parse_config-door_ids :
    (entry_id : Str) (value : Json) (config : ParsedConfig)
    → parse_config value ≡ ok config
    → (n : ℕ) × (m : ℕ) × (map (λ d. d.is_actuator) config.doors
        ≡ replicate n false ++ replicate m true)
      × (map (unique_id entry_id) (buttons (some config))
          ≡ (map (door_id entry_id) (numbers_from 0 n) ++ replicate m (door_id entry_id n))
            ++ map (unique_id entry_id) (video_buttons config.doors ++ restart_notifications ∷ []))
unfolding buttons
parse_config-door_ids entry_id value config parsed =
    let (n, m, indices, kinds) = parse_config-AreNumbered value config parsed in
    (
      n,
      m,
      kinds,
      map-append (unique_id entry_id) (map door config.doors) _
          ∙ ap
              (λ ids.
                ids
                ++ map (unique_id entry_id)
                    (video_buttons config.doors ++ restart_notifications ∷ []))
              (door_ids_lem entry_id config.doors
                ∙ ap (map (door_id entry_id)) indices
                ∙ map-append (door_id entry_id) (numbers_from 0 n) (replicate m n)
                ∙ ap (λ ids. map (door_id entry_id) (numbers_from 0 n) ++ ids)
                    (map-replicate (door_id entry_id) m n)),
    )
