-- ===== src/Names/Tables.antt =====
-- src/bindings/names.cpp: the tables of names, and the lookups of a name by its id.
-- A name is a text; an id that a script gives is an integer.
use vcmp_lua.Prelude.{
  pos, eq_ℤ, [], if◌then◌else◌, none, some, ◌++◌, ◌∷◌, String, List, Option, ℤ, ℕ,
}

-- kSkinNames, up to id 96 and from there on.
abbrev skin_names_low : List (ℕ × String)
skin_names_low =
    (0, "Tommy Vercetti")
    ∷ (1, "Cop")
    ∷ (2, "SWAT")
    ∷ (3, "FBI")
    ∷ (4, "Army")
    ∷ (5, "Paramedic")
    ∷ (6, "Firefighter")
    ∷ (7, "Golf Guy #1")
    ∷ (9, "Bum Lady #1")
    ∷ (10, "Bum Lady #2")
    ∷ (11, "Punk #1")
    ∷ (12, "Lawyer")
    ∷ (13, "Spanish Lady #1")
    ∷ (14, "Spanish Lady #2")
    ∷ (15, "Cool Guy #1")
    ∷ (16, "Arabic Guy")
    ∷ (17, "Beach Lady #1")
    ∷ (18, "Beach Lady #2")
    ∷ (19, "Beach Guy #1")
    ∷ (20, "Beach Guy #2")
    ∷ (21, "Office Lady #1")
    ∷ (22, "Waitress #1")
    ∷ (23, "Food Lady")
    ∷ (24, "Prostitute #1")
    ∷ (25, "Bum Lady #3")
    ∷ (26, "Bum Guy #1")
    ∷ (27, "Garbageman #1")
    ∷ (28, "Taxi Driver #1")
    ∷ (29, "Haitian #1")
    ∷ (30, "Criminal #1")
    ∷ (31, "Hood Lady")
    ∷ (32, "Granny #1")
    ∷ (33, "Businessman #1")
    ∷ (34, "Church Guy")
    ∷ (35, "Club Lady")
    ∷ (36, "Church Lady")
    ∷ (37, "Pimp")
    ∷ (38, "Beach Lady #3")
    ∷ (39, "Beach Guy #3")
    ∷ (40, "Beach Lady #4")
    ∷ (41, "Beach Guy #4")
    ∷ (42, "Businessman #2")
    ∷ (43, "Prostitute #2")
    ∷ (44, "Bum Lady #4")
    ∷ (45, "Bum Guy #2")
    ∷ (46, "Haitian #2")
    ∷ (47, "Construction Worker #1")
    ∷ (48, "Punk #2")
    ∷ (49, "Prostitute #3")
    ∷ (50, "Granny #2")
    ∷ (51, "Punk #3")
    ∷ (52, "Businessman #3")
    ∷ (53, "Spanish Lady #3")
    ∷ (54, "Spanish Lady #4")
    ∷ (55, "Cool Guy #2")
    ∷ (56, "Businessman #4")
    ∷ (57, "Beach Lady #5")
    ∷ (58, "Beach Guy #5")
    ∷ (59, "Beach Lady #6")
    ∷ (60, "Beach Guy #6")
    ∷ (61, "Construction Worker #2")
    ∷ (62, "Golf Guy #2")
    ∷ (63, "Golf Lady")
    ∷ (64, "Golf Guy #3")
    ∷ (65, "Beach Lady #7")
    ∷ (66, "Beach Guy #7")
    ∷ (67, "Office Lady #2")
    ∷ (68, "Businessman #5")
    ∷ (69, "Businessman #6")
    ∷ (70, "Prostitute #2")
    ∷ (71, "Bum Lady #4")
    ∷ (72, "Bum Guy #3")
    ∷ (73, "Spanish Guy")
    ∷ (74, "Taxi Driver #2")
    ∷ (75, "Gym Lady")
    ∷ (76, "Gym Guy")
    ∷ (77, "Skate Lady")
    ∷ (78, "Skate Guy")
    ∷ (79, "Shopper #1")
    ∷ (80, "Shopper #2")
    ∷ (81, "Tourist #1")
    ∷ (82, "Tourist #2")
    ∷ (83, "Cuban #1")
    ∷ (84, "Cuban #2")
    ∷ (85, "Haitian #3")
    ∷ (86, "Haitian #4")
    ∷ (87, "Shark #1")
    ∷ (88, "Shark #2")
    ∷ (89, "Diaz Guy #1")
    ∷ (90, "Diaz Guy #2")
    ∷ (91, "DBP Security #1")
    ∷ (92, "DBP Security #2")
    ∷ (93, "Biker #1")
    ∷ (94, "Biker #2")
    ∷ (95, "Vercetti Guy #1")
    ∷ (96, "Vercetti Guy #2")
    ∷ []

abbrev skin_names_high : List (ℕ × String)
skin_names_high =
    (97, "Undercover Cop #1")
    ∷ (98, "Undercover Cop #2")
    ∷ (99, "Undercover Cop #3")
    ∷ (100, "Undercover Cop #4")
    ∷ (101, "Undercover Cop #5")
    ∷ (102, "Undercover Cop #6")
    ∷ (103, "Rich Guy")
    ∷ (104, "Cool Guy #3")
    ∷ (105, "Prostitute #3")
    ∷ (106, "Prostitute #4")
    ∷ (107, "Love Fist #1")
    ∷ (108, "Ken Rosenburg")
    ∷ (109, "Candy Suxx")
    ∷ (110, "Hilary")
    ∷ (111, "Love Fist #2")
    ∷ (112, "Phil")
    ∷ (113, "Rockstar Guy")
    ∷ (114, "Sonny")
    ∷ (115, "Lance")
    ∷ (116, "Mercedes")
    ∷ (117, "Love Fist #3")
    ∷ (118, "Alex Shrub")
    ∷ (119, "Lance (Cop)")
    ∷ (120, "Lance")
    ∷ (121, "Cortez")
    ∷ (122, "Love Fist #4")
    ∷ (123, "Columbian Guy #1")
    ∷ (124, "Hilary (Robber)")
    ∷ (125, "Mercedes")
    ∷ (126, "Cam")
    ∷ (127, "Cam (Robber)")
    ∷ (128, "Phil (One Arm)")
    ∷ (129, "Phil (Robber)")
    ∷ (130, "Cool Guy #4")
    ∷ (131, "Pizza Man")
    ∷ (132, "Taxi Driver #1")
    ∷ (133, "Taxi Driver #2")
    ∷ (134, "Sailor #1")
    ∷ (135, "Sailor #2")
    ∷ (136, "Sailor #3")
    ∷ (137, "Chef")
    ∷ (138, "Criminal #2")
    ∷ (139, "French Guy")
    ∷ (140, "Garbageman #2")
    ∷ (141, "Haitian #5")
    ∷ (142, "Waitress #2")
    ∷ (143, "Sonny Guy #1")
    ∷ (144, "Sonny Guy #2")
    ∷ (145, "Sonny Guy #3")
    ∷ (146, "Columbian Guy #2")
    ∷ (147, "Haitian #6")
    ∷ (148, "Beach Guy #8")
    ∷ (149, "Garbageman #3")
    ∷ (150, "Garbageman #4")
    ∷ (151, "Garbageman #5")
    ∷ (152, "Tranny")
    ∷ (153, "Thug #5")
    ∷ (154, "SpandEx Guy #1")
    ∷ (155, "SpandEx Guy #2")
    ∷ (156, "Stripper #1")
    ∷ (157, "Stripper #2")
    ∷ (158, "Stripper #3")
    ∷ (159, "Store Clerk")
    ∷ (161, "Tommy with Suit")
    ∷ (162, "Worker Tommy")
    ∷ (163, "Golfer Tommy")
    ∷ (164, "Cuban Tommy")
    ∷ (165, "VCPD Tommy")
    ∷ (166, "Bank Robber Tommy")
    ∷ (167, "Street Tommy")
    ∷ (168, "Mafia Tommy")
    ∷ (169, "Jogger Tommy #1")
    ∷ (170, "Jogger Tommy #2")
    ∷ (171, "Guy With Suit #1")
    ∷ (172, "Guy With Suit #3")
    ∷ (173, "Prostitute #5")
    ∷ (174, "Rico")
    ∷ (175, "Prostitute #3")
    ∷ (176, "Club Lady")
    ∷ (177, "Prostitute #2")
    ∷ (178, "Skull T-Shirt Guy")
    ∷ (179, "Easter Egg Tommy")
    ∷ (180, "Diaz Gangster #1")
    ∷ (181, "Diaz Gangster #2")
    ∷ (182, "Hood Lady")
    ∷ (183, "Punk #1")
    ∷ (184, "Tray Lady")
    ∷ (185, "Kent Paul")
    ∷ (186, "Taxi Driver #1")
    ∷ (187, "Deformed Ken Rosenberg")
    ∷ (188, "Deformed Woman")
    ∷ (189, "Deformed Man")
    ∷ (190, "Deformed Cortez")
    ∷ (191, "Deformed Lance Vance")
    ∷ (192, "Thief #1")
    ∷ (193, "Thief #2")
    ∷ (194, "Thief #3")
    ∷ []

abbrev pub skin_names : List (ℕ × String)
skin_names = skin_names_low ++ skin_names_high

-- kWeaponNames.
abbrev pub weapon_names : List (ℕ × String)
weapon_names =
    (0, "Unarmed")
    ∷ (1, "Brass Knuckles")
    ∷ (2, "Screwdriver")
    ∷ (3, "Golf Club")
    ∷ (4, "Nightstick")
    ∷ (5, "Knife")
    ∷ (6, "Baseball Bat")
    ∷ (7, "Hammer")
    ∷ (8, "Meat Cleaver")
    ∷ (9, "Machete")
    ∷ (10, "Katana")
    ∷ (11, "Chainsaw")
    ∷ (12, "Grenade")
    ∷ (13, "Remote Detonation Grenade")
    ∷ (14, "Tear Gas")
    ∷ (15, "Molotov Cocktails")
    ∷ (16, "Rocket")
    ∷ (17, "Colt .45")
    ∷ (18, "Python")
    ∷ (19, "Pump-Action Shotgun")
    ∷ (20, "SPAS-12 Shotgun")
    ∷ (21, "Stubby Shotgun")
    ∷ (22, "TEC-9")
    ∷ (23, "Uzi")
    ∷ (24, "Silenced Ingram")
    ∷ (25, "MP5")
    ∷ (26, "M4")
    ∷ (27, "Ruger")
    ∷ (28, "Sniper Rifle")
    ∷ (29, "Laserscope Sniper Rifle")
    ∷ (30, "Rocket Launcher")
    ∷ (31, "Flamethrower")
    ∷ (32, "M60")
    ∷ (33, "Minigun")
    ∷ (34, "Explosion")
    ∷ (35, "Helicannon")
    ∷ (36, "Camera")
    ∷ (39, "Vehicle")
    ∷ (41, "Explosion")
    ∷ (42, "Driveby")
    ∷ (43, "Drowned")
    ∷ (44, "Fall")
    ∷ (51, "Explosion")
    ∷ (70, "Suicide")
    ∷ []

-- The loop of `SkinName` and `WeaponName`.
unfoldable pub text_of : List (ℕ × String) → ℤ → Option String
text_of [] id = none
text_of ((n, text) ∷ rest) id = if eq_ℤ (pos n) id then some text else text_of rest id

unfoldable pub skin_name : ℤ → Option String
unfolding text_of
skin_name id = text_of skin_names id

abbrev or_unknown : Option String → String
or_unknown none = "Unknown"
or_unknown (some text) = text

unfoldable pub weapon_name : ℤ → String
unfolding text_of
weapon_name id = or_unknown (text_of weapon_names id)
