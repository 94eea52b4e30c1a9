-- ===== src/Names/SkinIds.antt =====
-- src/bindings/names.cpp: the skin ids, the SKIN_ID_* constants.
use vcmp_lua.Prelude.{ℤ, pos, negsuc}

pub data SkinIdValue : Type 0 where
  unknown tommy_vercetti cop swat fbi army paramedic fireman golf_guy_a bum_lady_a : SkinIdValue
  bum_lady_b punk_a lawyer spanish_lady_a spanish_lady_b cool_guy_a arabic_guy beach_lady_a :
      SkinIdValue
  beach_lady_b beach_guy_a beach_guy_b office_lady_a waitress_a food_lady prostitute_a : SkinIdValue
  bum_lady_c bum_guy_a garbageman_a taxi_driver_a hatian_a criminal_a hood_lady granny_a :
      SkinIdValue
  business_man_a church_guy club_lady church_lady pimp beach_lady_c beach_guy_c : SkinIdValue
  beach_lady_d beach_guy_d business_man_b prostitute_b bum_lady_d bum_guy_b hatian_b : SkinIdValue
  construction_worker_a punk_b prostitute_c granny_b punk_c business_man_c spanish_lady_c :
      SkinIdValue
  spanish_lady_d cool_guy_b business_man_d beach_lady_e beach_guy_e beach_lady_f : SkinIdValue
  beach_guy_f construction_worker_b golf_guy_b golf_lady golf_guy_c beach_lady_g : SkinIdValue
  beach_guy_g office_lady_b business_man_e business_man_f prostitute_d bum_lady_e bum_guy_c :
      SkinIdValue
  spanish_guy taxi_driver_b gym_lady gym_guy skate_lady skate_guy shopper_a shopper_b : SkinIdValue
  tourist_a tourist_b cuban_a cuban_b hatian_c hatian_d shark_a shark_b diaz_guy_a : SkinIdValue
  diaz_guy_b dbp_security_a dbp_security_b biker_a biker_b vercetti_guy_a vercetti_guy_b :
      SkinIdValue
  undercover_cop_a undercover_cop_b undercover_cop_c undercover_cop_d undercover_cop_e : SkinIdValue
  undercover_cop_f rich_guy cool_guy_c prostitute_e prostitute_f love_fist_a ken_rosenburg :
      SkinIdValue
  candy_suxx hilary love_fist_b phil rockstar_guy sonny lance_a mercades_a love_fist_c : SkinIdValue
  alex_srub lance_cop lance_b cortez love_fist_d columbian_guy_a hilary_robber mercades_b :
      SkinIdValue
  cam cam_robber phil_one_arm phil_robber cool_guy_d pizzaman taxi_driver_c taxi_driver_d :
      SkinIdValue
  sailor_a sailor_b sailor_c chef criminal_b french_guy garbageman_b hatian_e waitress_b :
      SkinIdValue
  sonny_guy_a sonny_guy_b sonny_guy_c columbian_guy_b thug_a beach_guy_h garbageman_c : SkinIdValue
  garbageman_d garbageman_e tranny thug_b spandex_guy_a spandex_guy_b stripper_a stripper_b :
      SkinIdValue
  stripper_c store_clerk : SkinIdValue

-- The value of the enumerator.
unfoldable pub skin_value : SkinIdValue → ℤ
skin_value unknown = negsuc 0
skin_value tommy_vercetti = pos 0
skin_value cop = pos 1
skin_value swat = pos 2
skin_value fbi = pos 3
skin_value army = pos 4
skin_value paramedic = pos 5
skin_value fireman = pos 6
skin_value golf_guy_a = pos 7
skin_value bum_lady_a = pos 9
skin_value bum_lady_b = pos 10
skin_value punk_a = pos 11
skin_value lawyer = pos 12
skin_value spanish_lady_a = pos 13
skin_value spanish_lady_b = pos 14
skin_value cool_guy_a = pos 15
skin_value arabic_guy = pos 16
skin_value beach_lady_a = pos 17
skin_value beach_lady_b = pos 18
skin_value beach_guy_a = pos 19
skin_value beach_guy_b = pos 20
skin_value office_lady_a = pos 21
skin_value waitress_a = pos 22
skin_value food_lady = pos 23
skin_value prostitute_a = pos 24
skin_value bum_lady_c = pos 25
skin_value bum_guy_a = pos 26
skin_value garbageman_a = pos 27
skin_value taxi_driver_a = pos 28
skin_value hatian_a = pos 29
skin_value criminal_a = pos 30
skin_value hood_lady = pos 31
skin_value granny_a = pos 32
skin_value business_man_a = pos 33
skin_value church_guy = pos 34
skin_value club_lady = pos 35
skin_value church_lady = pos 36
skin_value pimp = pos 37
skin_value beach_lady_c = pos 38
skin_value beach_guy_c = pos 39
skin_value beach_lady_d = pos 40
skin_value beach_guy_d = pos 41
skin_value business_man_b = pos 42
skin_value prostitute_b = pos 43
skin_value bum_lady_d = pos 44
skin_value bum_guy_b = pos 45
skin_value hatian_b = pos 46
skin_value construction_worker_a = pos 47
skin_value punk_b = pos 48
skin_value prostitute_c = pos 49
skin_value granny_b = pos 50
skin_value punk_c = pos 51
skin_value business_man_c = pos 52
skin_value spanish_lady_c = pos 53
skin_value spanish_lady_d = pos 54
skin_value cool_guy_b = pos 55
skin_value business_man_d = pos 56
skin_value beach_lady_e = pos 57
skin_value beach_guy_e = pos 58
skin_value beach_lady_f = pos 59
skin_value beach_guy_f = pos 60
skin_value construction_worker_b = pos 61
skin_value golf_guy_b = pos 62
skin_value golf_lady = pos 63
skin_value golf_guy_c = pos 64
skin_value beach_lady_g = pos 65
skin_value beach_guy_g = pos 66
skin_value office_lady_b = pos 67
skin_value business_man_e = pos 68
skin_value business_man_f = pos 69
skin_value prostitute_d = pos 70
skin_value bum_lady_e = pos 71
skin_value bum_guy_c = pos 72
skin_value spanish_guy = pos 73
skin_value taxi_driver_b = pos 74
skin_value gym_lady = pos 75
skin_value gym_guy = pos 76
skin_value skate_lady = pos 77
skin_value skate_guy = pos 78
skin_value shopper_a = pos 79
skin_value shopper_b = pos 80
skin_value tourist_a = pos 81
skin_value tourist_b = pos 82
skin_value cuban_a = pos 83
skin_value cuban_b = pos 84
skin_value hatian_c = pos 85
skin_value hatian_d = pos 86
skin_value shark_a = pos 87
skin_value shark_b = pos 88
skin_value diaz_guy_a = pos 89
skin_value diaz_guy_b = pos 90
skin_value dbp_security_a = pos 91
skin_value dbp_security_b = pos 92
skin_value biker_a = pos 93
skin_value biker_b = pos 94
skin_value vercetti_guy_a = pos 95
skin_value vercetti_guy_b = pos 96
skin_value undercover_cop_a = pos 97
skin_value undercover_cop_b = pos 98
skin_value undercover_cop_c = pos 99
skin_value undercover_cop_d = pos 100
skin_value undercover_cop_e = pos 101
skin_value undercover_cop_f = pos 102
skin_value rich_guy = pos 103
skin_value cool_guy_c = pos 104
skin_value prostitute_e = pos 105
skin_value prostitute_f = pos 106
skin_value love_fist_a = pos 107
skin_value ken_rosenburg = pos 108
skin_value candy_suxx = pos 109
skin_value hilary = pos 110
skin_value love_fist_b = pos 111
skin_value phil = pos 112
skin_value rockstar_guy = pos 113
skin_value sonny = pos 114
skin_value lance_a = pos 115
skin_value mercades_a = pos 116
skin_value love_fist_c = pos 117
skin_value alex_srub = pos 118
skin_value lance_cop = pos 119
skin_value lance_b = pos 120
skin_value cortez = pos 121
skin_value love_fist_d = pos 122
skin_value columbian_guy_a = pos 123
skin_value hilary_robber = pos 124
skin_value mercades_b = pos 125
skin_value cam = pos 126
skin_value cam_robber = pos 127
skin_value phil_one_arm = pos 128
skin_value phil_robber = pos 129
skin_value cool_guy_d = pos 130
skin_value pizzaman = pos 131
skin_value taxi_driver_c = pos 132
skin_value taxi_driver_d = pos 133
skin_value sailor_a = pos 134
skin_value sailor_b = pos 135
skin_value sailor_c = pos 136
skin_value chef = pos 137
skin_value criminal_b = pos 138
skin_value french_guy = pos 139
skin_value garbageman_b = pos 140
skin_value hatian_e = pos 141
skin_value waitress_b = pos 142
skin_value sonny_guy_a = pos 143
skin_value sonny_guy_b = pos 144
skin_value sonny_guy_c = pos 145
skin_value columbian_guy_b = pos 146
skin_value thug_a = pos 147
skin_value beach_guy_h = pos 148
skin_value garbageman_c = pos 149
skin_value garbageman_d = pos 150
skin_value garbageman_e = pos 151
skin_value tranny = pos 152
skin_value thug_b = pos 153
skin_value spandex_guy_a = pos 154
skin_value spandex_guy_b = pos 155
skin_value stripper_a = pos 156
skin_value stripper_b = pos 157
skin_value stripper_c = pos 158
skin_value store_clerk = pos 159
