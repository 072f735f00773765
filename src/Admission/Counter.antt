-- ===== src/Admission/Counter.antt =====
-- `_PerModelCounter` of routing/admission.py: the tokens reserved, and the batch requests that wait,
-- per model. Each method runs under the counter's lock, so it is one operation here.
use inference_x.Prelude.{
  ℕ, zero, ◌+◌, String, ◌≡◌, refl, none, some, [], arith, str_eq, if◌then◌else◌,
}
use inference_x.Prelude.Dict
use inference_x.Prelude.Dict.{Dict, get-put}
use inference_x.Prelude.Int.{ℤ, pos, negsuc, ◌+ℤ◌, pos_part}

pub record PerModelCounter : Type 0 where
  counts : Dict ℕ

unfoldable pub empty : PerModelCounter
empty = record { counts = [] }

-- `self._counts.get(model, 0)`
unfoldable pub current : PerModelCounter → String → ℕ
current c model = elim (Dict.get c.counts model) [ none ↦ 0 | some n ↦ n ]

-- `max(0, self._counts.get(model, 0) + amount)`
unfoldable pub add : PerModelCounter → String → ℤ → PerModelCounter
unfolding current
add c model amount = record {
  counts = Dict.put c.counts model (pos_part (pos (current c model) +ℤ amount));
}

abbrev pub minus : ℕ → ℤ
minus zero = pos 0
minus (ℕ.suc n) = negsuc n

pub current-add :
    (c : PerModelCounter) (m j : String) (amount : ℤ)
    → current (add c m amount) j
      ≡ (if str_eq m j then pos_part (pos (current c m) +ℤ amount) else current c j)
unfolding add current
current-add c m j amount =
    ground (arith, get-put c.counts m j (pos_part (pos (current c m) +ℤ amount)))

pub current-empty : (m : String) → current empty m ≡ 0
unfolding current empty Dict.get
current-empty m = refl

-- What was added can be taken back, and nothing else is touched.
pub current-add_pos :
    (c : PerModelCounter) (m j : String) (n : ℕ)
    → current (add c m (pos n)) j ≡ (if str_eq m j then current c m + n else current c j)
current-add_pos c m j n = ground (arith, current-add c m j (pos n))

pub current-add-minus :
    (c : PerModelCounter) (m j : String) (n k : ℕ)
    → current c m ≡ k + n
    → current (add c m (minus n)) j ≡ (if str_eq m j then k else current c j)
current-add-minus c m j zero k e = ground (arith, current-add c m j (pos 0))
current-add-minus c m j (ℕ.suc n) k e = ground (arith, current-add c m j (negsuc n))
