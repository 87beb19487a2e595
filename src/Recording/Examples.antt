-- ===== src/Recording/Examples.antt =====
-- The archive at concrete names.
use smoke_tester.Prelude.{◌≡◌, refl}
use smoke_tester.Prelude.Dict.{lookup, insert}
use smoke_tester.Prelude.Text.{codes, text_eq, trim, trim_space}
use smoke_tester.Recording.Sanitize.{sanitize, replace_slash, replace_unsafe, is_safe, is_edge}
use smoke_tester.Recording.Archiver.{Archiver, new, reserve}
use smoke_tester.Recording.Archiver.Names.{reserve_collision}

abbrev archiver : Archiver
archiver = new (codes "recordings")

abbrev used_once : Archiver
used_once = (reserve archiver (codes "TestDial") (codes "uas")).archiver

reserve_collision_example :
    (reserve used_once (codes "TestDial") (codes "uas")).name
    ≡ (reserve
        (reserve used_once (codes "TestDial") (codes "uas")).archiver
        (codes "TestDial")
        (codes "uas-1")).name
unfolding new reserve lookup insert text_eq sanitize trim_space trim replace_slash replace_unsafe
    is_safe is_edge
reserve_collision_example =
    reserve_collision used_once (codes "TestDial") (codes "uas") (codes "uas-1") refl refl refl
