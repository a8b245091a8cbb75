-- ===== src/Bio/Message/Copying.antt =====
-- A copy of a message holds what the message holds.
use android_source_learn.Prelude.{ℕ, ◌+◌, ◌*◌, ◌∙◌, List, [], ◌∷◌, length, arith}
use android_source_learn.Memory.{Memory}
use android_source_learn.Memory.Frame.{Copied, Copied-part, load-Copied}
use android_source_learn.Memory.Units.{load_units-Copied}
use android_source_learn.Bio.{c_string}
use android_source_learn.Bio.Message.{Item, word, text, size_of, total_size, HoldsItem, Holds}

HoldsItem-Copied :
    (i : Item) (m : Memory) (d : ℕ) (m' : Memory) (d' : ℕ)
    → Copied (size_of i) m d m' d'
    → HoldsItem m d i
    → HoldsItem m' d' i
HoldsItem-Copied (word n) m d m' d' c h = load-Copied 4 m d m' d' c ∙ h
HoldsItem-Copied (text s) m d m' d' c (len, units, small) = (
  load-Copied 4 m d m' d' (λ i l. c i (omega arith)) ∙ len,
  load_units-Copied (length (c_string s)) m (d + 4) m' (d' + 4)
        (Copied-part 4 (2 * length (c_string s)) (size_of (text s)) m d m' d' c (omega arith))
      ∙ units,
  small,
)

-- A copy of a message holds the same items.
pub Holds-Copied :
    (is : List Item) (m : Memory) (d : ℕ) (m' : Memory) (d' : ℕ)
    → Copied (total_size is) m d m' d'
    → Holds m d is
    → Holds m' d' is
Holds-Copied [] m d m' d' c h = tt
Holds-Copied (i ∷ is) m d m' d' c (held, holds) = (
  HoldsItem-Copied i m d m' d' (λ k l. c k (omega arith)) held,
  Holds-Copied is m (d + size_of i) m' (d' + size_of i)
      (Copied-part (size_of i) (total_size is) (total_size (i ∷ is)) m d m' d' c (omega arith))
      holds,
)
