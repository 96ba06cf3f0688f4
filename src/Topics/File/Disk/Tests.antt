-- ===== src/Topics/File/Disk/Tests.antt =====
-- A topics file on disk, and the laws at a concrete one.
use mathlib.Core.List.{Perm}
use codealmanac.Prelude.{
  ℕ, Bool, true, false, ◌≡◌, refl, none, some, List, [], ◌∷◌, map, Text, codes, arith, trim, ltb,
  All, inl, inr,
}
use codealmanac.Topics.File.{TopicEntry, TopicsFile}
use codealmanac.Topics.File.Disk.{
  text, mapping, listed, Document, topics, loaded, dump_entry, load_topics_file, write_topics_file,
}
use codealmanac.Topics.File.Disk.Normal.{IsNormal, load_topics_file-IsNormal}
use codealmanac.Topics.File.Disk.RoundTrip.{
  IsStored, IsComparison, IsSorted, load_topics_file-write_topics_file,
}

-- The order of the first units, for slugs that differ there.
abbrev first_precedes : Text → Text → Bool
first_precedes [] [] = false
first_precedes [] (d ∷ t) = true
first_precedes (c ∷ s) [] = false
first_precedes (c ∷ s) (d ∷ t) = ltb c d

abbrev jwt : TopicEntry
jwt = record {
  slug = codes "jwt";
  title = codes "JWT";
  description = some (codes "tokens");
  parents = codes "auth" ∷ [];
}

abbrev auth : TopicEntry
auth = record { slug = codes "auth"; title = codes "Auth"; description = none; parents = [] }

-- Slugs are made of what stands there; the topic itself and a repeated parent are dropped.
abbrev sloppy : Document
sloppy = topics (
    mapping record {
      slug = text (codes " JWT ");
      title = text (codes " JWT");
      description = text (codes "tokens");
      parents = listed (text (codes "jwt") ∷ text (codes "Auth") ∷ text (codes "auth") ∷ []);
    }
    ∷ [])

sloppy_loads : load_topics_file sloppy ≡ loaded (jwt ∷ [])
unfolding load_topics_file codealmanac.Prelude.same codealmanac.Prelude.contains
sloppy_loads = refl

load_topics_file-IsNormal_example : All IsNormal (jwt ∷ [])
load_topics_file-IsNormal_example = load_topics_file-IsNormal sloppy (jwt ∷ []) sloppy_loads

plain_auth_loads : load_topics_file (topics (dump_entry auth ∷ [])) ≡ loaded (auth ∷ [])
unfolding load_topics_file
plain_auth_loads = refl

jwt-IsStored : IsStored jwt
unfolding trim
jwt-IsStored = record {
  normal = (load_topics_file-IsNormal sloppy (jwt ∷ []) sloppy_loads).0;
  title = record { trimmed = refl; filled = refl };
  description = record { trimmed = refl; filled = refl };
}

auth-IsStored : IsStored auth
unfolding trim
auth-IsStored = record {
  normal =
      (load_topics_file-IsNormal (topics (dump_entry auth ∷ [])) (auth ∷ []) plain_auth_loads).0;
  title = record { trimmed = refl; filled = refl };
  description = tt;
}

first-IsComparison : IsComparison first_precedes
first-IsComparison = record { asymmetric = asymmetric; transitive = transitive }
  where
    asymmetric : (a b : Text) → first_precedes a b ≡ true → first_precedes b a ≡ false
    asymmetric [] [] h = refl
    asymmetric [] (d ∷ t) h = refl
    asymmetric (c ∷ s) [] h = absurd (cc h)
    asymmetric (c ∷ s) (d ∷ t) h = ground arith

    transitive :
        (a b c : Text)
        → first_precedes a b ≡ false
        → first_precedes b c ≡ false
        → first_precedes a c ≡ false
    transitive [] [] c h k = k
    transitive [] (d ∷ t) c h k = absurd (cc h)
    transitive (x ∷ s) b [] h k = refl
    transitive (x ∷ s) [] (d ∷ t) h k = absurd (cc k)
    transitive (x ∷ s) (y ∷ t) (z ∷ u) h k = ground arith

load_topics_file-write_topics_file_example :
    (read : TopicsFile) × (load_topics_file (write_topics_file first_precedes (jwt ∷ auth ∷ []))
      ≡ loaded read)
    × Perm read (jwt ∷ auth ∷ [])
    × IsSorted first_precedes read
load_topics_file-write_topics_file_example =
    load_topics_file-write_topics_file first_precedes (jwt ∷ auth ∷ []) first-IsComparison
      (jwt-IsStored, (auth-IsStored, tt))
