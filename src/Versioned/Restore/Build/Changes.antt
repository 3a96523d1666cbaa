-- ===== src/Versioned/Restore/Build/Changes.antt =====
-- Changes of the tree of a restore (restore.rs) that serve one place.
use mathlib.Core.Path.{subst}
use backup_sync.Prelude.{
  ℕ, ◌≡◌, ◌≢◌, refl, sym, ◌⊎◌, inl, inr, false, Option, none, some, arith, if◌then◌else◌, Str,
  Bool-cases,
}
use backup_sync.Prelude.Int.{ℤ, pos, int_le}
use backup_sync.Map.{get, insert, get-insert, pair_key}
use backup_sync.Versioned.Restore.Tree.{
  Place, place_eq, place_eq_iff, place_key, Node, directory, regular, FileTree,
}
use backup_sync.Versioned.Restore.Build.{parent_of}
use backup_sync.Versioned.Restore.Build.Kept.{IsAbove, Dirs}

abbrev pub IsRegular : Node → Type 0
IsRegular (regular content time) = Unit
IsRegular _ = ⊥

-- What was there, a directory above the place, or a file at the place.
abbrev pub Added : Place → FileTree → Place → Node → Type 0
Added p t q n =
    (get q t ≡ some n) ⊎ (((n ≡ directory) × IsAbove q (parent_of p)) ⊎ ((q ≡ p) × IsRegular n))

-- A change of the tree that serves a file at one place.
pub record Change (p : Place) (t u : FileTree) : Type 0 where
  pub kept : (q : Place) (n : Node) → get q t ≡ some n → place_eq p q ≡ false → get q u ≡ some n
  pub dirs : (q : Place) → get q t ≡ some directory → get q u ≡ some directory
  pub added : (q : Place) (n : Node) → get q u ≡ some n → Added p t q n

pub Change-refl : (p : Place) (t : FileTree) → Change p t t
Change-refl p t = record { kept = λ q n h d. h; dirs = λ q h. h; added = λ q n h. inl h }

pub Change-trans : (p : Place) (t u v : FileTree) → Change p t u → Change p u v → Change p t v
Change-trans p t u v g h = record {
  kept = λ q n e d. h.kept q n (g.kept q n e d) d;
  dirs = λ q e. h.dirs q (g.dirs q e);
  added = λ q n e. elim (h.added q n e) [ inl old ↦ g.added q n old | inr new ↦ inr new ];
}

pub Dirs-Change : (p : Place) (t u : FileTree) → Dirs (parent_of p) t u → Change p t u
Dirs-Change p t u g = record {
  kept = λ q n e d. g.kept q n e;
  dirs = λ q e. g.kept q directory e;
  added = λ q n e. elim (g.added q n e) [ inl old ↦ inl old | inr new ↦ inr (inl new) ];
}

pub Change-insert :
    (p : Place) (content : Str) (time : Option (ℤ × ℕ)) (t : FileTree)
    → get p t ≢ some directory
    → Change p t (insert p (regular content time) t)
Change-insert p content time t free = record {
  kept = λ q n e d. ground (arith, get-insert p q (regular content time) t, d, e);
  dirs = λ q e. elim (Bool-cases (place_eq p q)) [
    | inl same ↦
        absurd (free (subst (λ x. get x t ≡ some directory) (sym ((place_eq_iff p q).0 same)) e))
    | inr apart ↦ ground (arith, get-insert p q (regular content time) t, apart, e)
  ];
  added = λ q n e. elim (Bool-cases (place_eq p q)) [
    | inl same ↦
        let it : regular content time ≡ n =
          ground (arith, get-insert p q (regular content time) t, same, e) in
        inr (inr (sym ((place_eq_iff p q).0 same), subst IsRegular it tt))
    | inr apart ↦ inl (ground (arith, get-insert p q (regular content time) t, apart, e))
  ];
}

-- A file with this content and time stands at the place, and the tree serves it.
abbrev pub Holds : Place → FileTree → Str → Option (ℤ × ℕ) → FileTree → Type 0
Holds p t content time u = Change p t u × (get p u ≡ some (regular content time))

pub Holds-insert :
    (p : Place) (content : Str) (time : Option (ℤ × ℕ)) (t : FileTree)
    → get p t ≢ some directory
    → Holds p t content time (insert p (regular content time) t)
Holds-insert p content time t free =
    let self = (place_eq_iff p p).1 refl in
    (
      Change-insert p content time t free,
      ground (arith, get-insert p p (regular content time) t, self),
    )

-- The time that a restored file has.
abbrev pub time_of : ℤ → ℕ → Option (ℤ × ℕ)
time_of mtime_unix mtime_nanos =
    if int_le mtime_unix (pos 0) then none else some (mtime_unix, mtime_nanos)
