-- ===== src/Names/Named.antt =====
-- src/bindings/names.cpp: every constant of the skin enumeration has a name in kSkinNames.
use vcmp_lua.Names.SkinIds.{
  SkinIdValue, skin_value, unknown, tommy_vercetti, cop, swat, fbi, army, paramedic, fireman,
  golf_guy_a, bum_lady_a, bum_lady_b, punk_a, lawyer, spanish_lady_a, spanish_lady_b, cool_guy_a,
  arabic_guy, beach_lady_a, beach_lady_b, beach_guy_a, beach_guy_b, office_lady_a, waitress_a,
  food_lady, prostitute_a, bum_lady_c, bum_guy_a, garbageman_a, taxi_driver_a, hatian_a, criminal_a,
  hood_lady, granny_a, business_man_a, church_guy, club_lady, church_lady, pimp, beach_lady_c,
  beach_guy_c, beach_lady_d, beach_guy_d, business_man_b, prostitute_b, bum_lady_d, bum_guy_b,
  hatian_b, construction_worker_a, punk_b, prostitute_c, granny_b, punk_c, business_man_c,
  spanish_lady_c, spanish_lady_d, cool_guy_b, business_man_d, beach_lady_e, beach_guy_e,
  beach_lady_f, beach_guy_f, construction_worker_b, golf_guy_b, golf_lady, golf_guy_c, beach_lady_g,
  beach_guy_g, office_lady_b, business_man_e, business_man_f, prostitute_d, bum_lady_e, bum_guy_c,
  spanish_guy, taxi_driver_b, gym_lady, gym_guy, skate_lady, skate_guy, shopper_a, shopper_b,
  tourist_a, tourist_b, cuban_a, cuban_b, hatian_c, hatian_d, shark_a, shark_b, diaz_guy_a,
  diaz_guy_b, dbp_security_a, dbp_security_b, biker_a, biker_b, vercetti_guy_a, vercetti_guy_b,
  undercover_cop_a, undercover_cop_b, undercover_cop_c, undercover_cop_d, undercover_cop_e,
  undercover_cop_f, rich_guy, cool_guy_c, prostitute_e, prostitute_f, love_fist_a, ken_rosenburg,
  candy_suxx, hilary, love_fist_b, phil, rockstar_guy, sonny, lance_a, mercades_a, love_fist_c,
  alex_srub, lance_cop, lance_b, cortez, love_fist_d, columbian_guy_a, hilary_robber, mercades_b,
  cam, cam_robber, phil_one_arm, phil_robber, cool_guy_d, pizzaman, taxi_driver_c, taxi_driver_d,
  sailor_a, sailor_b, sailor_c, chef, criminal_b, french_guy, garbageman_b, hatian_e, waitress_b,
  sonny_guy_a, sonny_guy_b, sonny_guy_c, columbian_guy_b, thug_a, beach_guy_h, garbageman_c,
  garbageman_d, garbageman_e, tranny, thug_b, spandex_guy_a, spandex_guy_b, stripper_a, stripper_b,
  stripper_c, store_clerk,
}
use vcmp_lua.Names.Tables.{skin_name}
use vcmp_lua.Prelude.{refl, inr, inl, none, true, ◌⊎◌, some, false, ◌≡◌, Bool, String, Option}

abbrev pub is_named : Option String → Bool
is_named none = false
is_named (some text) = true

pub named_or_unknown :
    (s : SkinIdValue) → (s ≡ unknown) ⊎ (is_named (skin_name (skin_value s)) ≡ true)
unfolding skin_name skin_value
named_or_unknown unknown = inl refl
named_or_unknown tommy_vercetti = inr refl
named_or_unknown cop = inr refl
named_or_unknown swat = inr refl
named_or_unknown fbi = inr refl
named_or_unknown army = inr refl
named_or_unknown paramedic = inr refl
named_or_unknown fireman = inr refl
named_or_unknown golf_guy_a = inr refl
named_or_unknown bum_lady_a = inr refl
named_or_unknown bum_lady_b = inr refl
named_or_unknown punk_a = inr refl
named_or_unknown lawyer = inr refl
named_or_unknown spanish_lady_a = inr refl
named_or_unknown spanish_lady_b = inr refl
named_or_unknown cool_guy_a = inr refl
named_or_unknown arabic_guy = inr refl
named_or_unknown beach_lady_a = inr refl
named_or_unknown beach_lady_b = inr refl
named_or_unknown beach_guy_a = inr refl
named_or_unknown beach_guy_b = inr refl
named_or_unknown office_lady_a = inr refl
named_or_unknown waitress_a = inr refl
named_or_unknown food_lady = inr refl
named_or_unknown prostitute_a = inr refl
named_or_unknown bum_lady_c = inr refl
named_or_unknown bum_guy_a = inr refl
named_or_unknown garbageman_a = inr refl
named_or_unknown taxi_driver_a = inr refl
named_or_unknown hatian_a = inr refl
named_or_unknown criminal_a = inr refl
named_or_unknown hood_lady = inr refl
named_or_unknown granny_a = inr refl
named_or_unknown business_man_a = inr refl
named_or_unknown church_guy = inr refl
named_or_unknown club_lady = inr refl
named_or_unknown church_lady = inr refl
named_or_unknown pimp = inr refl
named_or_unknown beach_lady_c = inr refl
named_or_unknown beach_guy_c = inr refl
named_or_unknown beach_lady_d = inr refl
named_or_unknown beach_guy_d = inr refl
named_or_unknown business_man_b = inr refl
named_or_unknown prostitute_b = inr refl
named_or_unknown bum_lady_d = inr refl
named_or_unknown bum_guy_b = inr refl
named_or_unknown hatian_b = inr refl
named_or_unknown construction_worker_a = inr refl
named_or_unknown punk_b = inr refl
named_or_unknown prostitute_c = inr refl
named_or_unknown granny_b = inr refl
named_or_unknown punk_c = inr refl
named_or_unknown business_man_c = inr refl
named_or_unknown spanish_lady_c = inr refl
named_or_unknown spanish_lady_d = inr refl
named_or_unknown cool_guy_b = inr refl
named_or_unknown business_man_d = inr refl
named_or_unknown beach_lady_e = inr refl
named_or_unknown beach_guy_e = inr refl
named_or_unknown beach_lady_f = inr refl
named_or_unknown beach_guy_f = inr refl
named_or_unknown construction_worker_b = inr refl
named_or_unknown golf_guy_b = inr refl
named_or_unknown golf_lady = inr refl
named_or_unknown golf_guy_c = inr refl
named_or_unknown beach_lady_g = inr refl
named_or_unknown beach_guy_g = inr refl
named_or_unknown office_lady_b = inr refl
named_or_unknown business_man_e = inr refl
named_or_unknown business_man_f = inr refl
named_or_unknown prostitute_d = inr refl
named_or_unknown bum_lady_e = inr refl
named_or_unknown bum_guy_c = inr refl
named_or_unknown spanish_guy = inr refl
named_or_unknown taxi_driver_b = inr refl
named_or_unknown gym_lady = inr refl
named_or_unknown gym_guy = inr refl
named_or_unknown skate_lady = inr refl
named_or_unknown skate_guy = inr refl
named_or_unknown shopper_a = inr refl
named_or_unknown shopper_b = inr refl
named_or_unknown tourist_a = inr refl
named_or_unknown tourist_b = inr refl
named_or_unknown cuban_a = inr refl
named_or_unknown cuban_b = inr refl
named_or_unknown hatian_c = inr refl
named_or_unknown hatian_d = inr refl
named_or_unknown shark_a = inr refl
named_or_unknown shark_b = inr refl
named_or_unknown diaz_guy_a = inr refl
named_or_unknown diaz_guy_b = inr refl
named_or_unknown dbp_security_a = inr refl
named_or_unknown dbp_security_b = inr refl
named_or_unknown biker_a = inr refl
named_or_unknown biker_b = inr refl
named_or_unknown vercetti_guy_a = inr refl
named_or_unknown vercetti_guy_b = inr refl
named_or_unknown undercover_cop_a = inr refl
named_or_unknown undercover_cop_b = inr refl
named_or_unknown undercover_cop_c = inr refl
named_or_unknown undercover_cop_d = inr refl
named_or_unknown undercover_cop_e = inr refl
named_or_unknown undercover_cop_f = inr refl
named_or_unknown rich_guy = inr refl
named_or_unknown cool_guy_c = inr refl
named_or_unknown prostitute_e = inr refl
named_or_unknown prostitute_f = inr refl
named_or_unknown love_fist_a = inr refl
named_or_unknown ken_rosenburg = inr refl
named_or_unknown candy_suxx = inr refl
named_or_unknown hilary = inr refl
named_or_unknown love_fist_b = inr refl
named_or_unknown phil = inr refl
named_or_unknown rockstar_guy = inr refl
named_or_unknown sonny = inr refl
named_or_unknown lance_a = inr refl
named_or_unknown mercades_a = inr refl
named_or_unknown love_fist_c = inr refl
named_or_unknown alex_srub = inr refl
named_or_unknown lance_cop = inr refl
named_or_unknown lance_b = inr refl
named_or_unknown cortez = inr refl
named_or_unknown love_fist_d = inr refl
named_or_unknown columbian_guy_a = inr refl
named_or_unknown hilary_robber = inr refl
named_or_unknown mercades_b = inr refl
named_or_unknown cam = inr refl
named_or_unknown cam_robber = inr refl
named_or_unknown phil_one_arm = inr refl
named_or_unknown phil_robber = inr refl
named_or_unknown cool_guy_d = inr refl
named_or_unknown pizzaman = inr refl
named_or_unknown taxi_driver_c = inr refl
named_or_unknown taxi_driver_d = inr refl
named_or_unknown sailor_a = inr refl
named_or_unknown sailor_b = inr refl
named_or_unknown sailor_c = inr refl
named_or_unknown chef = inr refl
named_or_unknown criminal_b = inr refl
named_or_unknown french_guy = inr refl
named_or_unknown garbageman_b = inr refl
named_or_unknown hatian_e = inr refl
named_or_unknown waitress_b = inr refl
named_or_unknown sonny_guy_a = inr refl
named_or_unknown sonny_guy_b = inr refl
named_or_unknown sonny_guy_c = inr refl
named_or_unknown columbian_guy_b = inr refl
named_or_unknown thug_a = inr refl
named_or_unknown beach_guy_h = inr refl
named_or_unknown garbageman_c = inr refl
named_or_unknown garbageman_d = inr refl
named_or_unknown garbageman_e = inr refl
named_or_unknown tranny = inr refl
named_or_unknown thug_b = inr refl
named_or_unknown spandex_guy_a = inr refl
named_or_unknown spandex_guy_b = inr refl
named_or_unknown stripper_a = inr refl
named_or_unknown stripper_b = inr refl
named_or_unknown stripper_c = inr refl
named_or_unknown store_clerk = inr refl
