-- ===== src/Seed/Videos.antt =====
-- server/cmd/seed/videos.go: the wallpapers that the seed command makes.
use screenspace.Base.{ℕ, String, List, [], ◌∷◌}

-- `SeedVideo`
pub record SeedVideo : Type 0 where
  pub url : String
  pub title : String
  pub category : String
  pub tags : List String
  pub downloads : ℕ

-- `videos`
abbrev pub videos : List SeedVideo
videos =
    record {
      url = "https://videos.pexels.com/video-files/857251/857251-hd_1620_1080_25fps.mp4";
      title = "Ocean Waves at Sunset";
      category = "nature";
      tags = "ocean" ∷ "waves" ∷ "sunset" ∷ "water" ∷ [];
      downloads = 342;
    }
    ∷ record {
      url = "https://videos.pexels.com/video-files/2491284/2491284-hd_2048_1080_24fps.mp4";
      title = "Misty Mountain Forest";
      category = "nature";
      tags = "forest" ∷ "mountains" ∷ "mist" ∷ "trees" ∷ [];
      downloads = 287;
    }
    ∷ record {
      url = "https://videos.pexels.com/video-files/1448735/1448735-hd_2048_1080_24fps.mp4";
      title = "Autumn Leaves Falling";
      category = "nature";
      tags = "autumn" ∷ "leaves" ∷ "fall" ∷ "seasonal" ∷ [];
      downloads = 198;
    }
    ∷ record {
      url = "https://videos.pexels.com/video-files/3141210/3141210-hd_1920_1080_25fps.mp4";
      title = "Flowing Ink in Water";
      category = "abstract";
      tags = "ink" ∷ "water" ∷ "fluid" ∷ "colorful" ∷ [];
      downloads = 456;
    }
    ∷ record {
      url = "https://videos.pexels.com/video-files/3129671/3129671-hd_1920_1080_30fps.mp4";
      title = "Abstract Light Geometry";
      category = "abstract";
      tags = "geometry" ∷ "lights" ∷ "digital" ∷ "lines" ∷ [];
      downloads = 523;
    }
    ∷ record {
      url = "https://videos.pexels.com/video-files/1851190/1851190-hd_1920_1080_25fps.mp4";
      title = "Milky Way Timelapse";
      category = "space";
      tags = "milky way" ∷ "stars" ∷ "night sky" ∷ "timelapse" ∷ [];
      downloads = 612;
    }
    ∷ record {
      url = "https://videos.pexels.com/video-files/856356/856356-hd_1920_1080_25fps.mp4";
      title = "Earth From Space";
      category = "space";
      tags = "earth" ∷ "space" ∷ "rotation" ∷ "planet" ∷ [];
      downloads = 389;
    }
    ∷ record {
      url = "https://videos.pexels.com/video-files/1721294/1721294-hd_1920_1080_25fps.mp4";
      title = "City Skyline at Dusk";
      category = "urban";
      tags = "city" ∷ "skyline" ∷ "dusk" ∷ "buildings" ∷ [];
      downloads = 275;
    }
    ∷ record {
      url = "https://videos.pexels.com/video-files/1826896/1826896-hd_1920_1080_24fps.mp4";
      title = "Aerial City View";
      category = "urban";
      tags = "aerial" ∷ "city" ∷ "drone" ∷ "urban" ∷ [];
      downloads = 441;
    }
    ∷ record {
      url = "https://videos.pexels.com/video-files/855029/855029-hd_1920_1080_30fps.mp4";
      title = "Coral Reef Fish";
      category = "underwater";
      tags = "coral" ∷ "reef" ∷ "fish" ∷ "underwater" ∷ "ocean" ∷ [];
      downloads = 167;
    }
    ∷ []
