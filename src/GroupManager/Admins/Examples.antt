-- ===== src/GroupManager/Admins/Examples.antt =====
-- Tests and instances of the theorems.
use add_members.Base.{
  ◌≡◌, refl, false, true, some, none, List, [], ◌∷◌, All, codes, seconds, ℤ, negsuc,
}
use add_members.GroupManager.Admins.{enum, text, is_admin}
use add_members.GroupManager.Admins.Never.{Asked, answers, answers-false}

abbrev group : ℤ
group = negsuc 99

-- With the texts of an older library, an admin is known.
text_known : (is_admin 0 1 group 7 (some (text (codes "administrator"))) []).1 ≡ true
unfolding is_admin
text_known = refl

abbrev calls : List Asked
calls =
    record {
      asked = 0;
      now = 1;
      chat_id = group;
      user_id = 7;
      reply = some (enum (codes "ADMINISTRATOR"));
    }
    ∷ record {
      asked = seconds 9;
      now = seconds 9;
      chat_id = group;
      user_id = 7;
      reply = some (enum (codes "OWNER"));
    }
    ∷ record { asked = seconds 400; now = seconds 401; chat_id = group; user_id = 8; reply = none }
    ∷ []

answers-false_example : All (λ ok. ok ≡ false) (answers calls [])
answers-false_example = answers-false calls (tt, (tt, (tt, tt)))
