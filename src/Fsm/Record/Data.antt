-- ===== src/Fsm/Record/Data.antt =====
-- `FSMRecord.__post_init__` of src/chattice/fsm/record.py on the record's `data`, and `dict(record.data)`
-- the other way.
use chattice.Base.{
  String, ◌≡◌, refl, Option, some, [], ◌∷◌, arith, All, ap, ◌∙◌, Bool-cases, inl, inr,
}
use chattice.Base.Eq.{◌==◌, string_eq}
use chattice.Dict
use chattice.Dict.{Dict}
use chattice.Fsm.Json.{Object, Json, require_json_value, ◌>>=◌}
use chattice.Fsm.Json.Revalidate.{embed, IsDict, require-embed}

-- `none` is the `TypeError`. The keys are texts already.
unfoldable pub require_dict : Dict String Object → Option (Dict String Json)
require_dict [] = some []
require_dict ((k, v) ∷ d) = do j ← require_json_value v; js ← require_dict d; some ((k, j) ∷ js)

-- `dict(record.data)`
unfoldable pub embed_dict : Dict String Json → Dict String Object
embed_dict [] = []
embed_dict ((k, j) ∷ d) = (k, embed j) ∷ embed_dict d

-- Every value is one that `_require_json_value` can give.
abbrev pub IsData : Dict String Json → Type 0
IsData = All (λ (p : String × Json). IsDict p.1)

pub require_dict-embed_dict :
    (d : Dict String Json) → IsData d → require_dict (embed_dict d) ≡ some d
unfolding require_dict embed_dict
require_dict-embed_dict [] h = refl
require_dict-embed_dict ((k, j) ∷ d) h = rw (require-embed j h.0, require_dict-embed_dict d h.1)

pub embed_dict-put :
    (d : Dict String Json) (k : String) (j : Json)
    → embed_dict (Dict.put d k j) ≡ Dict.put (embed_dict d) k (embed j)
unfolding embed_dict Dict.put
embed_dict-put [] k j = refl
embed_dict-put ((i, w) ∷ d) k j = ground (arith, embed_dict-put d k j)

pub embed_dict-update :
    (d p : Dict String Json)
    → embed_dict (Dict.update d p) ≡ Dict.update (embed_dict d) (embed_dict p)
unfolding embed_dict Dict.update
embed_dict-update d [] = refl
embed_dict-update d ((k, j) ∷ p) =
    embed_dict-update (Dict.put d k j) p
    ∙ ap (λ e. Dict.update e (embed_dict p)) (embed_dict-put d k j)

put-IsData :
    (d : Dict String Json) (k : String) (j : Json) → IsData d → IsDict j → IsData (Dict.put d k j)
unfolding Dict.put
put-IsData [] k j h hj = (hj, tt)
put-IsData ((i, w) ∷ d) k j h hj = elim (Bool-cases (i == k)) [
  | inl hit ↦ rw hit (hj, h.1)
  | inr miss ↦ rw miss (h.0, put-IsData d k j h.1 hj)
]

pub update-IsData : (d p : Dict String Json) → IsData d → IsData p → IsData (Dict.update d p)
unfolding Dict.update
update-IsData d [] h hp = h
update-IsData d ((k, j) ∷ p) h hp = update-IsData (Dict.put d k j) p (put-IsData d k j h hp.0) hp.1
